-- ===== src/Api/Crud.antt =====
-- internal/api/crud.go: reading, creating, updating and deleting the resources.
use hackaway_repo.Base.{String, Option, none, some, [], ◌∷◌, ◌==◌, append, if◌then◌else◌}
use hackaway_repo.Client.{
  Kind, Object, meta_of, with_meta, Error, Result, ok, Client, M, pure, ◌>>=◌, attempt, reads,
}
use hackaway_repo.Agent.Volume.{key}
use hackaway_repo.Api.Http.{Writer, object, objects, fields, write_header, write_json, http_error}

-- crudRequest
pub record CrudRequest : Type 0 where
  pub name : String

-- encoding/json: Unmarshal into a request, and over an object that is there; and err.Error()
pub record Codec : Type 0 where
  pub decode_request : String → Result CrudRequest
  pub decode_object : (k : Kind) → String → Object k → Result (Object k)
  pub error_text : Error → String

module _ (c : Client) (codec : Codec) (namespace : String) where
  open c use {State, get, list, create, created, update, updated, delete}
  open codec use {decode_request, decode_object, error_text}

  -- http.Error with the text of an error after a prefix
  abbrev refuse : String → Error → Writer → M State Writer
  refuse prefix e w = pure (http_error (append prefix (error_text e)) 400 w)

  unfoldable pub handle_get_one : (k : Kind) → String → Writer → M State Writer
  handle_get_one k name w =
      attempt (reads (get k (key name namespace))) (λ o. pure (write_json (object k o) w))
        λ e. pure (http_error (error_text e) 404 w)

  unfoldable pub handle_list : (k : Kind) → Writer → M State Writer
  handle_list k w =
      attempt (reads (list k namespace)) (λ os. pure (write_json (objects k os) w))
        λ e. pure (http_error (error_text e) 500 w)

  -- obj.SetName and obj.SetNamespace
  unfoldable pub placed : (k : Kind) → String → Object k → Object k
  placed k name o = with_meta k o (record (meta_of k o) { name = name; namespace = namespace })

  -- The object is answered as the call has filled it.
  unfoldable pub create_object : (k : Kind) → Object k → Writer → M State Writer
  create_object k o w = do
    filled ← reads (λ s. ok (created k o s))
    attempt (create k o) (λ _. pure (write_json (object k filled) (write_header 201 w)))
        λ e. pure (http_error (error_text e) 409 w)

  -- `new_obj` is the empty object that the body is decoded over.
  unfoldable pub handle_create : (k : Kind) → Object k → Option String → Writer → M State Writer
  unfolding placed create_object
  handle_create k new_obj none w = pure (http_error "failed to read request body" 400 w)
  handle_create k new_obj (some body) w =
      attempt (reads (λ s. decode_request body))
        (λ req.
          if req.name == ""
          then pure (http_error "name is required" 400 w)
          else attempt (reads (λ s. decode_object k body new_obj))
              (λ o. create_object k (placed k req.name o) w)
              (λ e. refuse "failed to parse object: " e w))
        λ e. refuse "invalid JSON: " e w

  -- Whatever the body says, the name, the namespace, the version and the uid stay.
  unfoldable pub restored : (k : Kind) → String → Object k → Object k → Object k
  restored k name existing o = with_meta k o (record (meta_of k o) {
    name = name;
    namespace = namespace;
    resource_version = (meta_of k existing).resource_version;
    uid = (meta_of k existing).uid;
  })

  unfoldable pub update_object : (k : Kind) → Object k → Writer → M State Writer
  update_object k o w = do
    filled ← reads (λ s. ok (updated k o s))
    attempt (update k o) (λ _. pure (write_json (object k filled) w))
        λ e. pure (http_error (error_text e) 409 w)

  unfoldable pub handle_update : (k : Kind) → Option String → String → Writer → M State Writer
  unfolding restored update_object
  handle_update k none name w = pure (http_error "failed to read request body" 400 w)
  handle_update k (some body) name w =
      attempt (reads (get k (key name namespace)))
        (λ existing.
          attempt (reads (λ s. decode_object k body existing))
            (λ o. update_object k (restored k name existing o) w)
            (λ e. refuse "failed to parse object: " e w))
        λ e. pure (http_error (error_text e) 404 w)

  unfoldable pub handle_delete : (k : Kind) → String → Writer → M State Writer
  handle_delete k name w =
      attempt (delete k (key name namespace))
        (λ _. pure (write_json (fields (("status", "deleted") ∷ ("name", name) ∷ [])) w))
        λ e. pure (http_error (error_text e) 404 w)
