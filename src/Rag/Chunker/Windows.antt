-- ===== src/Rag/Chunker/Windows.antt =====
-- The windows of rag/chunker.py: the loop ends, and what every chunk is.
use amber_claw.Base.{
  ℕ, zero, suc, ◌+◌, ◌≤◌, ◌<◌, ◌≡◌, refl, false, Option, none, some, List, [], ◌∷◌, ◌++◌, leb, ltb,
  min, length, arith, Bool-cases, ltb→lt, inl, inr, subst,
}
use amber_claw.Base.Text.{Text, rfind, rfind_bounds, slice, strip, is_nil}
use amber_claw.Rag.Chunker.{
  Chunk, TextChunker, or_else, cut, window_end, window_chunk, next_pos, chunk_loop, chunk_text,
  prepend,
}

-- What the constructor guarantees.
abbrev pub IsValid : TextChunker → Type 0
IsValid c = c.chunk_overlap < c.chunk_size

cut_bounds :
    (part : Text) (c : TextChunker) (pos end : ℕ) (text : Text) (i : ℕ)
    → rfind part (pos + c.chunk_overlap) end text ≡ some i
    → (pos + c.chunk_overlap ≤ i) × (i ≤ end)
cut_bounds part c pos end text i e =
    omega (arith, rfind_bounds part (pos + c.chunk_overlap) end text i e)

or_else_bounds :
    (low high : ℕ) (a b : Option ℕ)
    → ((i : ℕ) → a ≡ some i → (low ≤ i) × (i ≤ high))
    → ((i : ℕ) → b ≡ some i → (low ≤ i) × (i ≤ high))
    → (i : ℕ) → or_else a b ≡ some i
    → (low ≤ i) × (i ≤ high)
or_else_bounds low high none b first second i e = second i e
or_else_bounds low high (some j) b first second i e = first i e

cut_le :
    (pos end overlap : ℕ) (o : Option ℕ)
    → pos < end
    → ((i : ℕ) → o ≡ some i → (pos + overlap ≤ i) × (i ≤ end))
    → (pos < cut pos end o) × (cut pos end o ≤ end)
cut_le pos end overlap none some_text bounds = omega arith
cut_le pos end overlap (some i) some_text bounds = ground (arith, bounds i refl)

-- A window is not empty, no longer than the chunk size, and inside the text.
pub window_end-bounds :
    (c : TextChunker) (text : Text) (pos : ℕ)
    → IsValid c
    → pos < length text
    → (pos < window_end c text pos)
      × (window_end c text pos ≤ length text)
      × (window_end c text pos ≤ pos + c.chunk_size)
unfolding window_end
window_end-bounds c text pos valid inside =
    ground (arith, cut_le pos end c.chunk_overlap boundary (omega arith) bounds)
  where
    end : ℕ
    end = min (pos + c.chunk_size) (length text)

    boundary : Option ℕ
    boundary =
        or_else (rfind c.separator (pos + c.chunk_overlap) end text)
          (rfind (32 ∷ []) (pos + c.chunk_overlap) end text)

    bounds : (i : ℕ) → boundary ≡ some i → (pos + c.chunk_overlap ≤ i) × (i ≤ end)
    bounds =
        or_else_bounds (pos + c.chunk_overlap) end
          (rfind c.separator (pos + c.chunk_overlap) end text)
          (rfind (32 ∷ []) (pos + c.chunk_overlap) end text) (cut_bounds c.separator c pos end text)
          (cut_bounds (32 ∷ []) c pos end text)

-- The chunk has the number `idx`, and is the stripped slice of a window no longer than the chunk size.
abbrev pub IsWindow : TextChunker → Text → ℕ → Chunk → Type 0
IsWindow c text idx ch =
    (ch.index ≡ idx)
    × (ch.start_char < ch.end_char)
    × (ch.end_char ≤ length text)
    × (ch.end_char ≤ ch.start_char + c.chunk_size)
    × (ch.text ≡ strip (slice ch.start_char ch.end_char text))
    × (is_nil ch.text ≡ false)

-- The chunks are numbered from `idx` on.
abbrev pub IsChunking : TextChunker → Text → ℕ → List Chunk → Type 0
IsChunking c text idx [] = Unit {0}
IsChunking c text idx (ch ∷ cs) = IsWindow c text idx ch × IsChunking c text (idx + 1) cs

append-IsChunking :
    (c : TextChunker) (text : Text) (idx : ℕ) (xs ys : List Chunk)
    → IsChunking c text idx xs
    → IsChunking c text (idx + length xs) ys
    → IsChunking c text idx (xs ++ ys)
append-IsChunking c text idx [] ys _ h = subst (λ k. IsChunking c text k ys) (omega arith) h
append-IsChunking c text idx (x ∷ xs) ys g h = (
  g.0,
  append-IsChunking c text (idx + 1) xs ys g.1
      (subst (λ k. IsChunking c text k ys) (omega arith) h),
)

pub window_chunk-IsChunking :
    (c : TextChunker) (text : Text) (pos idx : ℕ)
    → IsValid c
    → pos < length text
    → IsChunking c text idx (window_chunk text pos (window_end c text pos) idx)
unfolding window_chunk
window_chunk-IsChunking c text pos idx valid inside =
    elim (Bool-cases (is_nil (strip (slice pos (window_end c text pos) text)))) [
      | inl e ↦ rw e tt
      | inr e ↦ rw e (
        (
          refl,
          (window_end-bounds c text pos valid inside).0,
          (window_end-bounds c text pos valid inside).1,
          (window_end-bounds c text pos valid inside).2,
          refl,
          e,
        ),
        tt,
      )
    ]

-- The next window starts after this one and at its end at the latest.
pub next_pos-bounds :
    (c : TextChunker) (text : Text) (pos : ℕ)
    → IsValid c
    → pos < length text
    → let end = window_end c text pos in (pos < next_pos c pos end) × (next_pos c pos end ≤ end)
unfolding next_pos
next_pos-bounds c text pos valid inside = ground (arith, window_end-bounds c text pos valid inside)

abbrev Chunks : TextChunker → Text → ℕ → Option (List Chunk) → Type 0
Chunks c text idx result = (cs : List Chunk) × (result ≡ some cs) × IsChunking c text idx cs

prepend-Chunks :
    (c : TextChunker) (text : Text) (idx : ℕ) (found : List Chunk) (rest : Option (List Chunk))
    → IsChunking c text idx found
    → Chunks c text (idx + length found) rest
    → Chunks c text idx (prepend found rest)
prepend-Chunks c text idx found rest g (cs, e, h) =
    (found ++ cs, rw e refl, append-IsChunking c text idx found cs g h)

-- Each turn starts further on, so the turns left are bounded by what is left of the text.
pub chunk_loop_total :
    (fuel : ℕ) (c : TextChunker) (text : Text) (pos idx : ℕ)
    → IsValid c
    → pos ≤ length text
    → length text < fuel + pos
    → Chunks c text idx (chunk_loop fuel c text pos idx)
unfolding chunk_loop
chunk_loop_total zero c text pos idx valid within enough = elim (short within enough) [ ]
  where
    short : pos ≤ length text → length text < 0 + pos → ⊥
    short = omega arith
chunk_loop_total (suc fuel) c text pos idx valid within enough =
    elim (Bool-cases (ltb pos (length text))) [
      | inr e ↦ rw e ([], refl, tt)
      | inl e ↦ rw e (elim (Bool-cases (leb (length text) end)) [
        | inl last ↦
            rw last (found, refl, window_chunk-IsChunking c text pos idx valid (ltb→lt pos _ e))
        | inr more ↦ rw more (
            prepend-Chunks c text idx found _
              (window_chunk-IsChunking c text pos idx valid (ltb→lt pos _ e))
              (chunk_loop_total fuel c text (next_pos c pos end) (idx + length found) valid
                (omega (arith, bounds (ltb→lt pos _ e))) (omega (arith, bounds (ltb→lt pos _ e)))))
      ])
    ]
  where
    end : ℕ
    end = window_end c text pos

    found : List Chunk
    found = window_chunk text pos end idx

    bounds : pos < length text → (pos < next_pos c pos end) × (next_pos c pos end ≤ length text)
    bounds inside =
        omega (
          arith,
          next_pos-bounds c text pos valid inside,
          window_end-bounds c text pos valid inside,
        )

-- A chunker whose overlap is less than its chunk size cuts every text into chunks in turn: they are
-- numbered from 0, and each is the stripped slice between its two offsets, not blank, inside the text
-- and no longer than the chunk size.
pub chunk_text_total :
    (c : TextChunker) (text : Text)
    → c.chunk_overlap < c.chunk_size
    → (cs : List Chunk) × (chunk_text c text ≡ some cs) × IsChunking c text 0 cs
unfolding chunk_text
chunk_text_total c text valid = elim (Bool-cases (is_nil (strip text))) [
  | inl e ↦ rw e ([], refl, tt)
  | inr e ↦ rw e (chunk_loop_total (length text + 1) c text 0 0 valid (omega arith) (omega arith))
]
