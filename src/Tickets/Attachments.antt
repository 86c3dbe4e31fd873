-- ===== src/Tickets/Attachments.antt =====
-- `AttachmentStore` of src/amberclaw/tickets/attachments.py with the files on the disk, which others may
-- change. The digest and the joining of path names are parameters; the new ID and the clock's reading are
-- arguments; writes succeed.
use amber_claw.Base.{
  ℕ, Bool, true, false, not, Option, none, some, String, Result, ok, raise, if◌then◌else◌, List, [],
  ◌∷◌, length, filter,
}
use amber_claw.Base.Dict
use amber_claw.Base.Dict.{Dict, values}
use amber_claw.Base.Key.{text_key, ◌==◌}
pub mod Reading
mod Tests

abbrev pub Bytes : Type 0
Bytes = List ℕ

pub record Attachment : Type 0 where
  pub attachment_id : String
  pub issue_id : String
  pub filename : String
  pub content_type : String
  pub size_bytes : ℕ
  pub sha256 : String
  pub storage_path : String
  pub uploaded_by : String
  pub uploaded_at : ℕ

pub record AttachmentStore : Type 0 where
  pub attachments : Dict String Attachment
  pub files : Dict String Bytes

-- `KeyError`, `FileNotFoundError` and `ValueError`
pub data Error : Type 0 where
  not_found file_missing checksum_mismatch : Error

unfoldable pub get_attachment : String → AttachmentStore → Option Attachment
get_attachment id s = Dict.get id s.attachments

unfoldable pub list_issue_attachments : String → AttachmentStore → List Attachment
list_issue_attachments issue_id s = filter (λ a. a.issue_id == issue_id) (values s.attachments)

-- `digest` is SHA-256 in hexadecimal; `join` gives the path of an issue's file by issue, ID and file name.
module _ (digest : Bytes → String) (join : String → String → String → String) where
  abbrev pub new_attachment : String → ℕ → String → String → Bytes → String → String → Attachment
  new_attachment id now issue_id filename content content_type uploaded_by = record {
    attachment_id = id;
    issue_id = issue_id;
    filename = filename;
    content_type = content_type;
    size_bytes = length content;
    sha256 = digest content;
    storage_path = join issue_id id filename;
    uploaded_by = uploaded_by;
    uploaded_at = now;
  }

  unfoldable pub save_attachment :
      String
      → ℕ
      → String
      → String
      → Bytes
      → String
      → String
      → AttachmentStore
      → AttachmentStore × Attachment
  save_attachment id now issue_id filename content content_type uploaded_by s =
      let a = new_attachment id now issue_id filename content content_type uploaded_by in
      (
        record {
          attachments = Dict.set id a s.attachments;
          files = Dict.set a.storage_path content s.files;
        },
        a,
      )

  abbrev pub verified : Attachment → Option Bytes → Result Error Bytes
  verified a none = raise file_missing
  verified a (some content) =
      if not (digest content == a.sha256) then raise checksum_mismatch else ok content

  abbrev pub read_found : AttachmentStore → Option Attachment → Result Error Bytes
  read_found s none = raise not_found
  read_found s (some a) = verified a (Dict.get a.storage_path s.files)

  unfoldable pub read_attachment_bytes : String → AttachmentStore → Result Error Bytes
  read_attachment_bytes id s = read_found s (get_attachment id s)
