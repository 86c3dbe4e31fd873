-- ===== src/Tickets/Comments.antt =====
-- `CommentManager` of src/amberclaw/tickets/comments.py. New IDs and the clock's reading are arguments.
use amber_claw.Base.{
  ℕ, Bool, true, false, not, Option, none, some, String, ltb, if◌then◌else◌, List, [], ◌∷◌, ◌++◌,
  length, filter,
}
use amber_claw.Base.Dict
use amber_claw.Base.Dict.{Dict, get_or}
use amber_claw.Base.Key.{text_key, ◌==◌}
pub mod Threads
mod Tests

pub record Comment : Type 0 where
  pub comment_id : String
  pub issue_id : String
  pub author : String
  pub content : String
  pub is_internal : Bool
  pub created_at : ℕ
  pub edited_at : Option ℕ

pub record CommentManager : Type 0 where
  pub comments : Dict String (List Comment)

abbrev pub thread : String → CommentManager → List Comment
thread issue_id m = get_or [] (Dict.get issue_id m.comments)

unfoldable pub add_comment :
    String → ℕ → String → String → String → Bool → CommentManager → CommentManager × Comment
add_comment id now issue_id author content is_internal m =
    let comment : Comment = record {
      comment_id = id;
      issue_id = issue_id;
      author = author;
      content = content;
      is_internal = is_internal;
      created_at = now;
      edited_at = none;
    } in
    (
      record { comments = Dict.set issue_id (thread issue_id m ++ comment ∷ []) m.comments },
      comment,
    )

unfoldable pub get_comments : String → Bool → CommentManager → List Comment
get_comments issue_id include_internal m =
    if not include_internal
    then filter (λ c. not c.is_internal) (thread issue_id m)
    else thread issue_id m

abbrev pub delete_found :
    String → String → CommentManager → Option (List Comment) → CommentManager × Bool
delete_found issue_id comment_id m none = (m, false)
delete_found issue_id comment_id m (some cs) =
    let left = filter (λ c. not (c.comment_id == comment_id)) cs in
    (record { comments = Dict.set issue_id left m.comments }, ltb (length left) (length cs))

unfoldable pub delete_comment : String → String → CommentManager → CommentManager × Bool
delete_comment issue_id comment_id m =
    delete_found issue_id comment_id m (Dict.get issue_id m.comments)
