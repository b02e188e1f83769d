-- ===== src/Introductions/Steps.antt =====
-- The requests that a node answers about introductions, as steps between its tables: the callers of
-- backend/app/value/introductions.py in backend/app/value/map_routes.py.
pub mod Calls
pub mod Keeps
use can_framework.Prelude.{ℕ, ◌≡◌, Option, some, List, String}
use can_framework.Prelude.Table.{first}
use can_framework.Prelude.Handler.{request}
use can_framework.Introductions.Records.{
  Introduction, OfferBody, ReplyBody, CommitBody, Db, Setting,
}
use can_framework.Introductions.Flow.{introduction_with, start}
use can_framework.Introductions.Hops.{Answer, receive, decide}
use can_framework.Introductions.Replies.{receive_reply, commit_offer, receive_commit}

abbrev pub Stored : Introduction → Db → Type 0
Stored i db = first (introduction_with i.id) db.introductions ≡ some i

pub data Step (c : Setting) (db : Db) : Db → Type 0 where
  starts :
      (paths : List (List String)) (commitment message offer requested_by : String)
      (correlation_id : ℕ)
      → Step c db
          (request (start c paths commitment message offer requested_by correlation_id) db).1
  receives : (b : OfferBody) (sender : String) → Step c db (request (receive c b sender) db).1
  decides : (a : Answer) (i : Introduction) → Stored i db → Step c db (request (decide c a i) db).1
  replies : (b : ReplyBody) (sender : String) → Step c db (request (receive_reply c b sender) db).1
  commits :
      (i : Introduction) (contact : String) (note : Option String)
      → Stored i db
      → Step c db (request (commit_offer c i contact note) db).1
  seals : (b : CommitBody) (sender : String) → Step c db (request (receive_commit c b sender) db).1
