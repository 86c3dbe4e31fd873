-- ===== src/Tickets/Comments/Tests.antt =====
-- Comments of tickets/comments.py at work.
use amber_claw.Base.{◌≡◌, refl, true, false, [], ◌∷◌, map}
use amber_claw.Base.Dict
use amber_claw.Base.Key.{text_key}
use amber_claw.Tickets.Comments.{CommentManager, add_comment, get_comments, delete_comment}

program : Unit {0}
unfolding Dict.get Dict.set add_comment get_comments delete_comment
program = tt

abbrev talk : CommentManager
talk =
    (add_comment "c2" 20 "I" "ops" "hidden" true
      (add_comment "c1" 10 "I" "ann" "hello" false (record { comments = [] })).0).0

shown : map (λ c. c.comment_id) (get_comments "I" false talk) ≡ "c1" ∷ []
unfolding program
shown = refl

deleted : (delete_comment "I" "c1" talk).1 ≡ true
unfolding program
deleted = refl

left_over :
    map (λ c. c.comment_id) (get_comments "I" true (delete_comment "I" "c1" talk).0) ≡ "c2" ∷ []
unfolding program
left_over = refl

no_thread : (delete_comment "J" "c1" talk).1 ≡ false
unfolding program
no_thread = refl
