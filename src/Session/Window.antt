-- ===== src/Session/Window.antt =====
-- What of a conversation `get_history` of session/manager.py shows.
use amber_claw.Base.{
  ℕ, ◌+◌, ◌-◌, ◌≤◌, ◌<◌, ◌≡◌, refl, sym, ap, ◌∙◌, subst, Bool, true, false, none, leb, List, [],
  ◌∷◌, map, length, drop, any, count_if, length-map, length-drop, drop-drop, drop-all, Bool-cases,
  Option-cases, inl, inr, arith,
}
use amber_claw.Base.Dict.{get_or}
use amber_claw.Base.Key.{text_key}
use amber_claw.Session.{
  Message, Session, last_n, is_user, find_user, from_user, history_entry, get_history,
}

-- The end of a list.
module _ {ℓ} {A : Type ℓ} where
  abbrev pub IsSuffix : List A → List A → Type ℓ
  IsSuffix xs ys = (length xs ≤ length ys) × (drop (length ys - length xs) ys ≡ xs)

  drop-IsSuffix : (n : ℕ) (xs : List A) → IsSuffix (drop n xs) xs
  drop-IsSuffix n xs = (
    omega (arith, length-drop n xs),
    elim (Bool-cases (leb n (length xs))) [
      | inl e ↦ ap (λ k. drop k xs) (ground (arith, length-drop n xs, e))
      | inr e ↦
          drop-all (length xs - length (drop n xs)) xs (ground (arith, length-drop n xs, e))
          ∙ sym (drop-all n xs (ground (arith, e)))
    ],
  )

  IsSuffix-trans : (xs ys zs : List A) → IsSuffix xs ys → IsSuffix ys zs → IsSuffix xs zs
  IsSuffix-trans xs ys zs (le, e) (le', e') = (
    omega arith,
    ap (λ k. drop k zs) sum
        ∙ sym (drop-drop (length zs - length ys) (length ys - length xs) zs)
        ∙ ap (drop (length ys - length xs)) e'
        ∙ e,
  )
    where
      sum : length zs - length xs ≡ (length zs - length ys) + (length ys - length xs)
      sum = omega arith

  IsSuffix-map {κ} :
      {B : Type κ} (f : A → B) (xs ys : List A)
      → IsSuffix xs ys
      → map f xs ≡ map f (drop (length ys - length (map f xs)) ys)
  IsSuffix-map f xs ys (le, e) =
      ap (map f) (sym e) ∙ ap (λ k. map f (drop (length ys - k) ys)) (sym (length-map f xs))

last_n-IsSuffix {ℓ} : {A : Type ℓ} (n : ℕ) (xs : List A) → IsSuffix (last_n n xs) xs
unfolding last_n
last_n-IsSuffix n xs = elim (Bool-cases (leb n 0)) [
  | inl e ↦ rw e (drop-IsSuffix 0 xs)
  | inr e ↦ rw e (drop-IsSuffix (length xs - n) xs)
]

length-last_n {ℓ} : {A : Type ℓ} (n : ℕ) (xs : List A) → 0 < n → length (last_n n xs) ≤ n
unfolding last_n
length-last_n n xs h = ground (arith, length-drop (length xs - n) xs)

from_user_cons :
    (m : Message) (ms : List Message)
    → is_user m ≡ false
    → any is_user ms ≡ true
    → from_user (m ∷ ms) ≡ from_user ms
unfolding find_user
from_user_cons m ms other there = elim (Option-cases (find_user ms)) [
  | inl e ↦ absurd (contra ms there e)
  | inr (l, e) ↦ rw (other, e) refl
]
  where
    contra : (l : List Message) → any is_user l ≡ true → find_user l ≡ none → ⊥
    contra [] there e = ground (arith, there)
    contra (x ∷ l) there e = elim (Bool-cases (is_user x)) [
      | inl u ↦ ground (arith, (rw u at e))
      | inr u ↦ contra l (ground (arith, there, u)) (rw u at e)
    ]

from_user_none : (ms : List Message) → any is_user ms ≡ false → from_user ms ≡ ms
unfolding find_user
from_user_none ms h = ap (get_or ms) (nobody ms h)
  where
    nobody : (l : List Message) → any is_user l ≡ false → find_user l ≡ none
    nobody [] h = refl
    nobody (x ∷ l) h = elim (Bool-cases (is_user x)) [
      | inl u ↦ ground (arith, h, u)
      | inr u ↦ rw u (nobody l (ground (arith, h)))
    ]

-- The first message is the user's.
abbrev pub opens : List Message → Bool
opens [] = false
opens (m ∷ ms) = is_user m

-- An end of `ms` without a loss of the user's messages, which opens with one if there is one.
abbrev IsAligned : List Message → List Message → Type 0
IsAligned l ms =
    IsSuffix l ms × (count_if is_user l ≡ count_if is_user ms) × (opens l ≡ any is_user ms)

suffix_cons : (m : Message) (l ms : List Message) → IsSuffix l ms → IsSuffix l (m ∷ ms)
suffix_cons m l ms h = IsSuffix-trans l ms (m ∷ ms) h (drop-IsSuffix 1 (m ∷ ms))

opens_none : (ms : List Message) → any is_user ms ≡ false → opens ms ≡ false
opens_none [] h = refl
opens_none (m ∷ ms) h = ground (arith, h)

from_user_here : (m : Message) (ms : List Message) → is_user m ≡ true → from_user (m ∷ ms) ≡ m ∷ ms
unfolding find_user
from_user_here m ms u = rw u refl

from_user-IsAligned : (ms : List Message) → IsAligned (from_user ms) ms
unfolding find_user
from_user-IsAligned [] = (drop-IsSuffix 0 [], refl, refl)
from_user-IsAligned (m ∷ ms) = elim (Bool-cases (is_user m)) [
  | inl u ↦
      subst (λ l. IsAligned l (m ∷ ms)) (sym (from_user_here m ms u))
        (drop-IsSuffix 0 (m ∷ ms), refl, ground (arith, u))
  | inr u ↦ elim (Bool-cases (any is_user ms)) [
    | inl there ↦
        let (suffix, count, first) = from_user-IsAligned ms in
        subst (λ l. IsAligned l (m ∷ ms)) (sym (from_user_cons m ms u there))
          (suffix_cons m (from_user ms) ms suffix, ground (arith, u, count), rw u first)
    | inr nobody ↦
        let none_here : any is_user (m ∷ ms) ≡ false = ground (arith, u, nobody) in
        subst (λ l. IsAligned l (m ∷ ms)) (sym (from_user_none (m ∷ ms) none_here))
          (drop-IsSuffix 0 (m ∷ ms), refl, opens_none (m ∷ ms) none_here ∙ sym none_here)
  ]
]

count_if-entries : (l : List Message) → count_if is_user (map history_entry l) ≡ count_if is_user l
count_if-entries [] = refl
count_if-entries (m ∷ l) = ground (arith, count_if-entries l)

opens-entries : (l : List Message) → opens (map history_entry l) ≡ opens l
opens-entries [] = refl
opens-entries (m ∷ l) = refl

-- If at least one message is asked for, the history holds the last messages of the session in their order,
-- each with its content or the empty text: at most as many as asked for, none that is consolidated, and of the
-- messages in that range every one of the user's; it opens with a message of the user's exactly if there is
-- one in that range.
pub get_history-suffix :
    (max_messages : ℕ) (s : Session)
    → 0 < max_messages
    → let h = get_history max_messages s in
      let range = last_n max_messages (drop s.last_consolidated s.messages) in
      (h ≡ map history_entry (drop (length s.messages - length h) s.messages))
      × (length h ≤ max_messages)
      × (length h ≤ length s.messages - s.last_consolidated)
      × (count_if is_user h ≡ count_if is_user range)
      × (opens h ≡ any is_user range)
unfolding get_history
get_history-suffix max_messages s positive = (
  IsSuffix-map history_entry shown s.messages (
      IsSuffix-trans shown range s.messages aligned.0 (
        IsSuffix-trans range rest s.messages (last_n-IsSuffix max_messages rest)
          (drop-IsSuffix s.last_consolidated s.messages))),
  omega (
    arith,
    length-map history_entry shown,
    aligned.0.0,
    length-last_n max_messages rest positive,
  ),
  omega (
    arith,
    length-map history_entry shown,
    aligned.0.0,
    (last_n-IsSuffix max_messages rest).0,
    length-drop s.last_consolidated s.messages,
  ),
  count_if-entries shown ∙ aligned.1,
  opens-entries shown ∙ aligned.2,
)
  where
    rest : List Message
    rest = drop s.last_consolidated s.messages

    range : List Message
    range = last_n max_messages rest

    shown : List Message
    shown = from_user range

    aligned : IsAligned shown range
    aligned = from_user-IsAligned range
