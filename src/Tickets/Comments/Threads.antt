-- ===== src/Tickets/Comments/Threads.antt =====
-- The threads of tickets/comments.py.
use amber_claw.Base.{
  ◌≡◌, refl, ap, ◌∙◌, Bool, true, false, not, String, List, [], ◌∷◌, filter, Bool-cases,
  Option-cases, inl, inr,
}
use amber_claw.Base.Dict
use amber_claw.Base.Dict.{Dict, get_or, get-set, get-set_self}
use amber_claw.Base.Key.{text_key, ◌==◌}
use amber_claw.Tickets.Comments.{CommentManager, thread, get_comments, delete_comment}

-- A thread after a deletion in it.
thread-delete_comment :
    (issue id : String) (m : CommentManager)
    → thread issue (delete_comment issue id m).0
      ≡ filter (λ c. not (c.comment_id == id)) (thread issue m)
unfolding delete_comment
thread-delete_comment issue id m = elim (Option-cases (Dict.get issue m.comments)) [
  | inl e ↦ rw (e, e) refl
  | inr (cs, e) ↦ rw e (ap (get_or []) (get-set_self issue _ m.comments))
]

filter_swap {ℓ} :
    {A : Type ℓ} (p q : A → Bool) (xs : List A) → filter p (filter q xs) ≡ filter q (filter p xs)
filter_swap p q [] = refl
filter_swap p q (x ∷ xs) = elim (Bool-cases (p x)) [
  | inl e ↦ elim (Bool-cases (q x)) [
    | inl f ↦ rw (e, f, e) (ap (λ ys. x ∷ ys) (filter_swap p q xs))
    | inr f ↦ rw (e, f) (filter_swap p q xs)
  ]
  | inr e ↦ elim (Bool-cases (q x)) [
    | inl f ↦ rw (e, f, e) (filter_swap p q xs)
    | inr f ↦ rw (e, f) (filter_swap p q xs)
  ]
]

-- A deletion takes the comments with the ID out of what either kind of reader sees of the thread, and leaves
-- the order of the others.
pub get_comments-delete_comment :
    (issue id : String) (internal : Bool) (m : CommentManager)
    → get_comments issue internal (delete_comment issue id m).0
      ≡ filter (λ c. not (c.comment_id == id)) (get_comments issue internal m)
unfolding get_comments
get_comments-delete_comment issue id true m = thread-delete_comment issue id m
get_comments-delete_comment issue id false m =
    ap (filter (λ c. not c.is_internal)) (thread-delete_comment issue id m)
    ∙ filter_swap (λ c. not c.is_internal) (λ c. not (c.comment_id == id)) (thread issue m)
