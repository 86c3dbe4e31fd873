-- ===== src/Tickets/Attachments/Tests.antt =====
-- The attachments of tickets/attachments.py at work, with stand-ins for the digest and the path names.
use amber_claw.Base.{◌≡◌, refl, String, ok, raise, List, [], ◌∷◌, map}
use amber_claw.Base.Dict
use amber_claw.Base.Key.{text_key}
use amber_claw.Tickets.Attachments.{
  Bytes, AttachmentStore, not_found, file_missing, checksum_mismatch, get_attachment,
  list_issue_attachments, save_attachment, read_attachment_bytes,
}
use amber_claw.Tickets.Attachments.Reading.{
  Call, saving, writing, deleting, run, IsRead, read_attachment_bytes-save_attachment,
}

program : Unit {0}
unfolding Dict.get Dict.set Dict.remove get_attachment list_issue_attachments save_attachment
    read_attachment_bytes
program = tt

abbrev digest : Bytes → String
digest [] = "none"
digest (b ∷ []) = "one"
digest (b ∷ c ∷ bs) = "more"

-- Every attachment has its path by its ID alone.
abbrev join : String → String → String → String
join issue id filename = id

abbrev bare : AttachmentStore
bare = record { attachments = []; files = [] }

abbrev saved : AttachmentStore
saved = (save_attachment digest join "A" 5 "I" "log.txt" (7 ∷ 8 ∷ []) "text/plain" "ops" bare).0

abbrev calls : List Call
calls = saving "B" 6 "I" "other.txt" (1 ∷ []) "text/plain" "ops" ∷ writing "A" (2 ∷ []) ∷ []

changed :
    read_attachment_bytes digest join "A" (run digest join calls saved) ≡ raise checksum_mismatch
unfolding program
changed = refl

gone :
    read_attachment_bytes digest join "A" (run digest join (deleting "A" ∷ []) saved)
    ≡ raise file_missing
unfolding program
gone = refl

unknown : read_attachment_bytes digest join "C" saved ≡ raise not_found
unfolding program
unknown = refl

listed :
    map (λ a. a.attachment_id) (list_issue_attachments "I" (run digest join calls saved))
    ≡ "A" ∷ "B" ∷ []
unfolding program
listed = refl

read_attachment_bytes-save_attachment_example :
    let later = run digest join calls saved in
    IsRead digest join
      (7 ∷ 8 ∷ [])
      (Dict.get "A" later.files)
      (read_attachment_bytes digest join "A" later)
    × (read_attachment_bytes digest join "A" saved ≡ ok (7 ∷ 8 ∷ []))
unfolding program
read_attachment_bytes-save_attachment_example =
    read_attachment_bytes-save_attachment digest join "A" "I" "log.txt" "text/plain" "ops" 5
      (7 ∷ 8 ∷ []) calls bare (refl, (tt, tt))
