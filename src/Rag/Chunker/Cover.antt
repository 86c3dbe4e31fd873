-- ===== src/Rag/Chunker/Cover.antt =====
-- The chunks of rag/chunker.py together hold the whole text, white space apart.
use amber_claw.Base.{
  ℕ, zero, suc, ◌+◌, ◌≤◌, ◌<◌, ◌≡◌, refl, Bool, true, false, ◌&&◌, ◌||◌, Option, none, some, List,
  [], ◌∷◌, ◌++◌, leb, ltb, length, arith, any, Bool-cases, inl, inr, ltb→lt, subst,
}
use amber_claw.Base.Text.{Text, has_ink, has_ink_lt, strip-slice, strip-ink}
use amber_claw.Rag.Chunker.{
  Chunk, TextChunker, window_end, window_chunk, next_pos, chunk_loop, chunk_text, prepend,
}
use amber_claw.Rag.Chunker.Windows.{IsValid, window_end-bounds, next_pos-bounds, chunk_loop_total}

-- Does a chunk's window take in the offset?
abbrev pub covered : ℕ → List Chunk → Bool
covered i = any (λ ch. leb ch.start_char i && ltb i ch.end_char)

abbrev covers : ℕ → Option (List Chunk) → Bool
covers i none = false
covers i (some cs) = covered i cs

covered-append : (i : ℕ) (xs ys : List Chunk) → covered i (xs ++ ys) ≡ covered i xs || covered i ys
covered-append i [] ys = refl
covered-append i (x ∷ xs) ys = ground (arith, covered-append i xs ys)

covers-prepend :
    (i : ℕ) (found : List Chunk) (rest : Option (List Chunk))
    → covers i rest ≡ true
    → covers i (prepend found rest) ≡ true
covers-prepend i found none h = h
covers-prepend i found (some cs) h = ground (arith, covered-append i found cs)

covers-found :
    (i : ℕ) (found cs : List Chunk) (rest : Option (List Chunk))
    → rest ≡ some cs
    → covered i found ≡ true
    → covers i (prepend found rest) ≡ true
covers-found i found cs rest e h = rw e (ground (arith, covered-append i found cs))

covered-window_chunk :
    (i pos end idx : ℕ) (text : Text)
    → pos ≤ i
    → i < end
    → has_ink i text ≡ true
    → covered i (window_chunk text pos end idx) ≡ true
unfolding window_chunk
covered-window_chunk i pos end idx text low high ink =
    rw (strip-slice pos end i text low high ink) (ground arith)

chunk_loop-covers :
    (fuel : ℕ) (c : TextChunker) (text : Text) (pos idx i : ℕ)
    → IsValid c
    → length text < fuel + pos
    → pos ≤ i
    → has_ink i text ≡ true
    → covers i (chunk_loop fuel c text pos idx) ≡ true
unfolding chunk_loop
chunk_loop-covers zero c text pos idx i valid enough low ink =
    elim (short (has_ink_lt i text ink)) [ ]
  where
    short : i < length text → ⊥
    short h = omega arith
chunk_loop-covers (suc fuel) c text pos idx i valid enough low ink =
    rw inside (elim (Bool-cases (leb (length text) end)) [
      | inl last ↦
          rw last (
            covered-window_chunk i pos end idx text low (ground (arith, has_ink_lt i text ink)) ink)
      | inr more ↦ rw more (elim (Bool-cases (ltb i end)) [
        | inl here ↦
            let (cs, e, _) =
              chunk_loop_total fuel c text (next_pos c pos end) (idx + length found) valid
                (omega (arith, bounds)) (omega (arith, bounds)) in
            covers-found i found cs _ e
              (covered-window_chunk i pos end idx text low (ltb→lt i end here) ink)
        | inr beyond ↦ covers-prepend i found _ (
            chunk_loop-covers fuel c text (next_pos c pos end) (idx + length found) i valid
              (omega (arith, bounds)) (ground (arith, bounds)) ink)
      ])
    ])
  where
    end : ℕ
    end = window_end c text pos

    found : List Chunk
    found = window_chunk text pos end idx

    inside : ltb pos (length text) ≡ true
    inside = ground (arith, has_ink_lt i text ink)

    bounds : (pos < next_pos c pos end) × (next_pos c pos end ≤ end) × (end ≤ length text)
    bounds = omega (
      arith,
      next_pos-bounds c text pos valid (ltb→lt _ _ inside),
      window_end-bounds c text pos valid (ltb→lt _ _ inside),
    )

-- No text is lost: each offset that holds something other than white space lies in the window of a
-- chunk, for a chunker whose overlap is less than its chunk size.
pub chunk_text-covers :
    (c : TextChunker) (text : Text) (cs : List Chunk) (i : ℕ)
    → c.chunk_overlap < c.chunk_size
    → chunk_text c text ≡ some cs
    → has_ink i text ≡ true
    → covered i cs ≡ true
unfolding chunk_text
chunk_text-covers c text cs i valid result ink =
    subst (λ r. covers i r ≡ true) result
      (rw (strip-ink i text ink)
        (chunk_loop-covers (length text + 1) c text 0 0 i valid (omega arith) (omega arith) ink))
