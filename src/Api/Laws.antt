-- ===== src/Api/Laws.antt =====
-- What the handlers of internal/api/crud.go answer and what they leave in the cluster.
use hackaway_repo.Base.{String, ◌≡◌, refl, sym, ap, subst, Option, none, some, arith, inl, inr}
use hackaway_repo.Kube.Objects.{ObjectMeta}
use hackaway_repo.Client.{Kind, Object, meta_of, with_meta, Key, key_of, Result-cases, ok, Client}
use hackaway_repo.Client.Laws.{Lawful, Elsewhere}
use hackaway_repo.Ensure.Laws.{meta_of-with_meta}
use hackaway_repo.Agent.Volume.{key}
use hackaway_repo.Api.Http.{Writer, empty_writer, object, write_json}
use hackaway_repo.Api.Crud.{
  Codec, CrudRequest, handle_get_one, placed, handle_create, restored, update_object, handle_update,
}

module _ (c : Client) (codec : Codec) (namespace : String) where
  pub restored-key :
      (k : Kind) (name : String) (existing o : Object k)
      → key_of k (restored c codec namespace k name existing o) ≡ key name namespace
  unfolding restored
  restored-key k name existing o =
      ap (λ m. record { name = m.name; namespace = m.namespace }) (meta_of-with_meta k o _)

  update_object_state :
      (k : Kind) (o : Object k) (w : Writer) (s : c.State)
      → (update_object c codec namespace k o w s).1 ≡ (c.update k o s).1
  unfolding update_object
  update_object_state k o w s = elim (Result-cases (c.update k o s).0) [
    | inl (u, e) ↦ ground arith
    | inr (inl (f, e)) ↦ ground arith
    | inr (inr e) ↦ ground arith
  ]

  module _ (law : Lawful c) where
    -- With a lawful client, an update of a resource, whatever its body is and whatever its outcome,
    -- leaves every object of another kind or under another key as it is.
    pub handle_update-Elsewhere :
        (k : Kind) (body : Option String) (name : String) (w : Writer) (s : c.State) (j : Kind)
        (y : Key)
        → Elsewhere k (key name namespace) j y
        → c.get j y (handle_update c codec namespace k body name w s).1 ≡ c.get j y s
    unfolding handle_update
    handle_update-Elsewhere k none name w s j y other = refl
    handle_update-Elsewhere k (some body) name w s j y other =
        elim (Result-cases (c.get k (key name namespace) s)) [
          | inl (existing, e) ↦ elim (Result-cases (codec.decode_object k body existing)) [
            | inl (o, d) ↦
                let new = restored c codec namespace k name existing o in
                let frame =
                  law.update_elsewhere k new s j y
                    (subst (λ x. Elsewhere k x j y) (sym (restored-key k name existing o)) other) in
                ground (arith, update_object_state k new w s, frame)
            | inr (inl (f, d)) ↦ ground (arith)
            | inr (inr d) ↦ ground arith
          ]
          | inr (inl (f, e)) ↦ ground arith
          | inr (inr e) ↦ ground arith
        ]

  -- The steps of a creation that is answered with 201.
  record Created (k : Kind) (new_obj : Object k) (body : Option String) (s : c.State) : Type 0 where
    text_read : String
    req : CrudRequest
    o : Object k
    read : body ≡ some text_read
    named : codec.decode_request text_read ≡ ok req
    decoded : codec.decode_object k text_read new_obj ≡ ok o
    stored : (c.create k (placed c codec namespace k req.name o) s).0 ≡ ok tt
    after :
        (handle_create c codec namespace k new_obj body empty_writer s).1
        ≡ (c.create k (placed c codec namespace k req.name o) s).1

  pub get_one_found :
      (k : Kind) (name : String) (o : Object k) (s : c.State)
      → c.get k (key name namespace) s ≡ ok o
      → handle_get_one c codec namespace k name empty_writer s
        ≡ (ok (write_json (object k o) empty_writer), s)
  unfolding handle_get_one
  get_one_found k name o s e = rw e refl

  pub with_meta-again :
      (k : Kind) (o : Object k) (m : ObjectMeta)
      → with_meta k o (meta_of k (with_meta k o m)) ≡ with_meta k o m
  with_meta-again k o m = ap (with_meta k o) (meta_of-with_meta k o m)
