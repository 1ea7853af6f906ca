-- ===== src/Push/Parents.antt =====
-- The hold-back of `flush` in src/sync/push.rs: the foreign keys of a payload and of its request.
use braird_core.Prelude.{
  String, ◌≡◌, refl, Bool, false, none, some, List, [], ◌∷◌, str_eq, any, All, if◌then◌else◌, ◌⊎◌,
  inl, inr, Bool-cases, Option-cases, arith, eq_iff, unwrap_or,
}
use braird_core.Prelude.Maps
use braird_core.Json
use braird_core.Json.{Value, Map, str, obj, arr, cons, nil, empty, as_str}
use braird_core.Json.Laws.{get-insert, get-remove}
use braird_core.Store.State.{update}
use braird_core.Push.{
  Request, upsert, patch, is_blocked, fk_deps, arm, request_for, upsert_group, patch_group,
  record_id_column, is_sparse, sent_record_id,
}

abbrev pub table_of : Request → String
table_of (upsert table on_conflict rows) = table
table_of (patch table primary_key record_id row) = table

-- The row that a request is about: its fields, and the key of a patch where it is not empty.
unfoldable pub sent_fields : Request → Map
sent_fields (upsert table on_conflict (arr (cons (obj row) nil))) = row
sent_fields (patch table primary_key record_id (obj row)) =
    if str_eq record_id "" then row else Json.insert primary_key (str record_id) row
sent_fields _ = empty

-- A request whose row points at no failed row.
abbrev pub IsClear : (String → List String) → Request → Type 0
IsClear failed request =
    is_blocked failed (fk_deps (table_of request)) (sent_fields request) ≡ false

abbrev FromPayload : Map → Map → String → Type 0
FromPayload sent payload col =
    (as_str (Json.get col sent) ≡ none)
    ⊎ (as_str (Json.get col sent) ≡ as_str (Json.get col payload))

module _ (payload : Map) (pk col : String) where
  removed-FromPayload : FromPayload (Json.remove pk payload) payload col
  removed-FromPayload = elim (Bool-cases (str_eq pk col)) [
    | inl e ↦ inl (unfold as_str in ground (arith, get-remove pk col payload))
    | inr e ↦ inr (ground (arith, get-remove pk col payload))
  ]

  keyed-FromPayload :
      (id : String)
      → as_str (Json.get pk payload) ≡ some id
      → FromPayload (Json.insert pk (str id) (Json.remove pk payload)) payload col
  keyed-FromPayload id h = elim (Bool-cases (str_eq pk col)) [
    | inl e ↦
        let same : pk ≡ col = (eq_iff pk col).0 e in
        inr (unfold as_str in ground (arith, get-insert pk col (str id) (Json.remove pk payload)))
    | inr e ↦ inr (
        ground
          (arith, get-insert pk col (str id) (Json.remove pk payload), get-remove pk col payload))
  ]

patched-FromPayload :
    (table pk : String) (payload : Map) (col : String)
    → FromPayload
        (sent_fields (patch_group table payload pk (unwrap_or (as_str (Json.get pk payload)) "")))
        payload
        col
unfolding patch_group sent_fields
patched-FromPayload table pk payload col = elim (Option-cases (as_str (Json.get pk payload))) [
  | inl none' ↦ rw none' (removed-FromPayload payload pk col)
  | inr (id, e) ↦ elim (Bool-cases (str_eq id "")) [
    | inl unset ↦ rw (e, unset, sent_fields) (removed-FromPayload payload pk col)
    | inr set ↦ rw (e, set, sent_fields) (keyed-FromPayload payload pk col id e)
  ]
]

upserted-FromPayload :
    (user_id table : String) (payload : Map) (col : String)
    → str_eq "user_id" col ≡ false
    → FromPayload (sent_fields (upsert_group table payload user_id)) payload col
unfolding upsert_group sent_fields
upserted-FromPayload user_id table payload col other =
    inr (ground (arith, get-insert "user_id" col (str user_id) payload))

-- A request shows the columns of the payload and no others, but for the user.
pub request_for-FromPayload :
    (user_id table : String) (payload : Map) (col : String)
    → str_eq "user_id" col ≡ false
    → FromPayload (sent_fields (request_for user_id table payload)) payload col
request_for-FromPayload user_id table payload col other =
    elim (Bool-cases (is_sparse table payload)) [
      | inl e ↦
          unfold request_for sent_record_id in
          rw (e) (patched-FromPayload table (record_id_column table) payload col)
      | inr e ↦ unfold request_for in rw (e) (upserted-FromPayload user_id table payload col other)
    ]

pub is_blocked-FromPayload :
    (failed : String → List String) (deps : List (String × String)) (sent payload : Map)
    → All (λ (dep : String × String). FromPayload sent payload dep.0) deps
    → is_blocked failed deps payload ≡ false
    → is_blocked failed deps sent ≡ false
unfolding is_blocked any
is_blocked-FromPayload failed [] sent payload f b = refl
is_blocked-FromPayload failed (dep ∷ deps) sent payload f b =
    ground (arith, f.0, is_blocked-FromPayload failed deps sent payload f.1)

-- A table that some dependency points into.
unfoldable pub is_parent : String → List (String × String) → Bool
is_parent table deps = any (λ dep. str_eq table dep.1) deps

-- A failure in a table changes nothing for requests that do not depend on it.
pub is_blocked-update :
    (failed : String → List String) (table : String) (ids : List String)
    (deps : List (String × String)) (payload : Map)
    → is_parent table deps ≡ false
    → is_blocked (update failed table ids) deps payload ≡ is_blocked failed deps payload
unfolding is_parent any is_blocked update
is_blocked-update failed table ids [] payload p = refl
is_blocked-update failed table ids (dep ∷ deps) payload p =
    ground (arith, is_blocked-update failed table ids deps payload)

arm-All {ℓ} :
    {A : Type ℓ} (P : A → Type 0) (arms : List (String × List A)) (table : String)
    → All (λ (entry : String × List A). All P entry.1) arms
    → All P (arm arms table)
unfolding arm Maps.lookup
arm-All P [] table h = tt
arm-All P ((name, items) ∷ arms) table h = elim (Bool-cases (str_eq name table)) [
  | inl e ↦ rw e h.0
  | inr e ↦ rw e (arm-All P arms table h.1)
]

pub fk_deps-All :
    (table : String)
    → All (λ (dep : String × String). str_eq "user_id" dep.0 ≡ false) (fk_deps table)
unfolding fk_deps
fk_deps-All table =
    arm-All (λ (dep : String × String). str_eq "user_id" dep.0 ≡ false) _ table
      (
        (refl, tt),
        ((refl, (refl, tt)), ((refl, (refl, tt)), ((refl, tt), ((refl, (refl, tt)), tt)))),
      )
