-- ===== src/Tickets/Attachments/Reading.antt =====
-- What is read back from the attachments of tickets/attachments.py.
use amber_claw.Base.{
  ◌≢◌, ◌⊎◌, inl, inr, Bool-cases, subst, sym, arith, raise, Option, none, some, Result, ℕ, ◌≡◌,
  refl, ◌∙◌, false, String, ok, List, [], ◌∷◌, All,
}
use amber_claw.Base.Dict
use amber_claw.Base.Dict.{Dict, get-set, get-set_self}
use amber_claw.Base.Key.{text_key, ◌==◌, ==_refl}
use amber_claw.Tickets.Attachments.{
  Error, file_missing, checksum_mismatch, Bytes, Attachment, AttachmentStore, get_attachment,
  new_attachment, save_attachment, verified, read_attachment_bytes,
}

-- Another attachment is saved, or somebody writes or deletes a file.
pub data Call : Type 0 where
  saving : String → ℕ → String → String → Bytes → String → String → Call
  writing : String → Bytes → Call
  deleting : String → Call

-- Saved under another ID, or a change of the disk, which may be of any file.
abbrev pub HasOther : String → Call → Type 0
HasOther id (saving other now issue filename content kind by) = (other == id) ≡ false
HasOther id (writing path content) = Unit
HasOther id (deleting path) = Unit

module _ (digest : Bytes → String) (join : String → String → String → String) where
  abbrev pub step : Call → AttachmentStore → AttachmentStore
  step (saving id now issue filename content kind by) s =
      (save_attachment digest join id now issue filename content kind by s).0
  step (writing path content) s = record s { files = Dict.set path content s.files }
  step (deleting path) s = record s { files = Dict.remove path s.files }

  abbrev pub run : List Call → AttachmentStore → AttachmentStore
  run [] s = s
  run (c ∷ cs) s = run cs (step c s)

  step-get_attachment :
      (id : String) (c : Call) (s : AttachmentStore)
      → HasOther id c
      → get_attachment id (step c s) ≡ get_attachment id s
  unfolding save_attachment get_attachment
  step-get_attachment id (saving other now issue filename content kind by) s h =
      get-set other id _ s.attachments ∙ rw h refl
  step-get_attachment id (writing path content) s h = refl
  step-get_attachment id (deleting path) s h = refl

  run-get_attachment :
      (id : String) (cs : List Call) (s : AttachmentStore)
      → All (HasOther id) cs
      → get_attachment id (run cs s) ≡ get_attachment id s
  run-get_attachment id [] s h = refl
  run-get_attachment id (c ∷ cs) s h =
      run-get_attachment id cs (step c s) h.1 ∙ step-get_attachment id c s h.0

  -- What becomes of a reading, by what the file of the attachment holds.
  abbrev pub IsRead : Bytes → Option Bytes → Result Error Bytes → Type 0
  IsRead content none r = r ≡ raise file_missing
  IsRead content (some found) r =
      ((digest found ≡ digest content) × (r ≡ ok found))
      ⊎ ((digest found ≢ digest content) × (r ≡ raise checksum_mismatch))

  verified-IsRead :
      (a : Attachment) (content : Bytes) (o : Option Bytes)
      → a.sha256 ≡ digest content
      → IsRead content o (verified digest join a o)
  verified-IsRead a content none e = refl
  verified-IsRead a content (some found) e = elim (Bool-cases (digest found == a.sha256)) [
    | inl same ↦
        inl (ground (arith, same, e, text_key.same_key_iff (digest found) a.sha256), rw same refl)
    | inr other ↦
        inr (ground (arith, other, e, text_key.same_key_iff (digest found) a.sha256), rw other refl)
  ]

  -- Whatever is saved under other IDs, written or deleted after an attachment was saved: reading it gives the
  -- content of its file if that has the digest of what was saved, raises a checksum mismatch if it has
  -- another one, and raises that the file is missing if there is none. Read at once it gives what was saved.
  pub read_attachment_bytes-save_attachment :
      (id issue filename kind by : String) (now : ℕ) (content : Bytes) (cs : List Call)
      (s : AttachmentStore)
      → All (HasOther id) cs
      → let saved = (save_attachment digest join id now issue filename content kind by s).0 in
        let later = run cs saved in
        IsRead content
          (Dict.get (join issue id filename) later.files)
          (read_attachment_bytes digest join id later)
        × (read_attachment_bytes digest join id saved ≡ ok content)
  unfolding save_attachment read_attachment_bytes get_attachment
  read_attachment_bytes-save_attachment id issue filename kind by now content cs s h = (
    subst (IsRead content (Dict.get a.storage_path later.files)) (sym read)
        (verified-IsRead a content (Dict.get a.storage_path later.files) refl),
    rw
        (
          get-set_self id a s.attachments,
          get-set_self a.storage_path content s.files,
          ==_refl (digest content),
        )
        refl,
  )
    where
      a : Attachment
      a = new_attachment digest join id now issue filename content kind by

      saved : AttachmentStore
      saved = (save_attachment digest join id now issue filename content kind by s).0

      later : AttachmentStore
      later = run cs saved

      read :
          read_attachment_bytes digest join id later
          ≡ verified digest join a (Dict.get a.storage_path later.files)
      read = rw (run-get_attachment id cs saved h, get-set_self id a s.attachments) refl
