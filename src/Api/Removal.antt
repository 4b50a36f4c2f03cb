-- ===== src/Api/Removal.antt =====
-- What an update and a deletion over internal/api/crud.go leave to be read.
use hackaway_repo.Base.{String, ◌≡◌, refl, sym, subst, Option, some, arith, inl, inr}
use hackaway_repo.Client.{Kind, Object, Error, not_found, Result-cases, ok, err, Client}
use hackaway_repo.Client.Laws.{Lawful}
use hackaway_repo.Agent.Volume.{key}
use hackaway_repo.Api.Http.{Writer, Sent, empty_writer, write, set_header, write_header, http_error}
use hackaway_repo.Api.Crud.{Codec, handle_get_one, restored, handle_update, handle_delete}

module _ (c : Client) (codec : Codec) (namespace : String) (law : Lawful c) where
  get_one_missing :
      (k : Kind) (name : String) (f : Error) (s : c.State)
      → c.get k (key name namespace) s ≡ err f
      → handle_get_one c codec namespace k name empty_writer s
        ≡ (ok (http_error (codec.error_text f) 404 empty_writer), s)
  unfolding handle_get_one
  get_one_missing k name f s e = rw e refl

  handle_delete-Sent :
      (k : Kind) (name : String) (s : c.State) (r : Writer)
      → (handle_delete c codec namespace k name empty_writer s).0 ≡ ok r
      → Sent r 200
      → ((c.delete k (key name namespace) s).0 ≡ ok tt)
        × ((handle_delete c codec namespace k name empty_writer s).1
            ≡ (c.delete k (key name namespace) s).1)
  unfolding handle_delete http_error set_header write_header write
  handle_delete-Sent k name s r done (h, sent) =
      elim (Result-cases (c.delete k (key name namespace) s).0) [
        | inl (u, e) ↦ (e, ground arith)
        | inr (inl (f, e)) ↦ absurd (ground arith)
        | inr (inr e) ↦ absurd (ground arith)
      ]

  -- With a lawful client, after a deletion that is answered with 200 a read of the same name is
  -- answered with 404.
  pub handle_delete-get_one :
      (k : Kind) (name : String) (s : c.State) (r : Writer)
      → (handle_delete c codec namespace k name empty_writer s).0 ≡ ok r
      → Sent r 200
      → let t = (handle_delete c codec namespace k name empty_writer s).1 in
        handle_get_one c codec namespace k name empty_writer t
        ≡ (ok (http_error (codec.error_text not_found) 404 empty_writer), t)
  handle_delete-get_one k name s r done sent = get_one_missing k name not_found _ (
      let (gone, same) = handle_delete-Sent k name s r done sent in
      subst (λ u. c.get k (key name namespace) u ≡ err not_found) (sym same)
        (law.get_delete k (key name namespace) s gone))

  -- The steps of an update that is answered with 200.
  Updated : (k : Kind) → Option String → String → c.State → Type 0
  Updated k body name s =
      (old o : Object k) × (text_read : String) × (c.get k (key name namespace) s ≡ ok old)
      × (body ≡ some text_read)
      × (codec.decode_object k text_read old ≡ ok o)
      × ((c.update k (restored c codec namespace k name old o) s).0 ≡ ok tt)
      × ((handle_update c codec namespace k body name empty_writer s).1
          ≡ (c.update k (restored c codec namespace k name old o) s).1)
