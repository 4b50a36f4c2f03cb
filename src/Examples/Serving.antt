-- ===== src/Examples/Serving.antt =====
-- The theorems on the API server. A body is the name of the resource that it asks for.
use hackaway_repo.Base.{String, ◌≡◌, refl, some, [], ◌∷◌, inr, insert}
use hackaway_repo.Client.{channel, Error, ok}
use hackaway_repo.Client.Memory.{memory, holding}
use hackaway_repo.Client.Memory.Lawfulness.{memory-Lawful}
use hackaway_repo.Agent.Volume.{key}
use hackaway_repo.Api.Http.{
  Writer, empty_writer, object, fields, write_header, write_json, http_error,
}
use hackaway_repo.Api.Crud.{Codec, placed, restored, handle_get_one, handle_update, handle_delete}
use hackaway_repo.Api.Laws.{handle_update-Elsewhere}
use hackaway_repo.Api.Removal.{handle_delete-get_one}
use hackaway_repo.Examples.Data.{empty, at, slack}

abbrev pub error_text : Error → String
error_text e = "failed"

abbrev pub codec : Codec
codec = record {
  decode_request = λ body. ok (record { name = body });
  decode_object = λ k body o. ok o;
  error_text = error_text;
}

-- The channel `chat` in the namespace, by itself.
abbrev chatting : memory.State
chatting = holding (record empty { channels = at "chat" slack })

abbrev created : Writer
created =
    write_json (object channel (placed memory codec "ns" channel "chat" slack))
      (write_header 201 empty_writer)

abbrev deleted : Writer
deleted = write_json (fields (("status", "deleted") ∷ ("name", "chat") ∷ [])) empty_writer

answers_deleted :
    (handle_delete memory codec "ns" channel "chat" empty_writer chatting).0 ≡ ok deleted
unfolding memory holding handle_delete
answers_deleted = refl

sends_deleted : deleted.sent ≡ some (200, ("Content-Type", "application/json") ∷ [])
unfolding write_json insert
sends_deleted = refl

handle_delete-get_one_example :
    let t = (handle_delete memory codec "ns" channel "chat" empty_writer chatting).1 in
    handle_get_one memory codec "ns" channel "chat" empty_writer t
    ≡ (ok (http_error "failed" 404 empty_writer), t)
handle_delete-get_one_example =
    handle_delete-get_one memory codec "ns" memory-Lawful channel "chat" chatting deleted
      answers_deleted (_, sends_deleted)

abbrev updated : Writer
updated =
    write_json (object channel (restored memory codec "ns" channel "chat" slack slack)) empty_writer

handle_update-Elsewhere_example :
    memory.get channel
      (key "other" "ns")
      (handle_update memory codec "ns" channel (some "{}") "chat" empty_writer chatting).1
    ≡ memory.get channel (key "other" "ns") chatting
handle_update-Elsewhere_example =
    handle_update-Elsewhere memory codec "ns" memory-Lawful channel (some "{}") "chat" empty_writer
      chatting channel (key "other" "ns") (inr (λ same. cc))
