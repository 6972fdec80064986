-- ===== src/SpiceDb.antt =====
-- `PermissionTuple` and the `SpiceDB` protocol of apps/backend/authorization/client.py. The server
-- is not part of the repository: its calls are the fields of a record over a state `World`, and
-- `none` is any exception of the client.
pub mod Laws
use knowledge_graph_mvp.Prelude.{
  Bool, Eq, List, Option, String, Text, [], arith, codes, if◌then◌else◌, label_eq_iff, list_eq,
  nat_eq, starts_with, string_eq, text_eq_iff, texts_ltb, true, ◌&&◌, ◌==◌, ◌↔◌, ◌∷◌, ◌≡◌,
}

pub record PermissionTuple : Type 0 where
  pub resource_type : String
  pub resource_id : Text
  pub relation : String
  pub subject_type : String
  pub subject_id : Text
  pub subject_relation : String

abbrev pub tuple_beq : PermissionTuple → PermissionTuple → Bool
tuple_beq a b =
    a.resource_type == b.resource_type
    && (a.resource_id == b.resource_id
        && (a.relation == b.relation
            && (a.subject_type == b.subject_type
                && (a.subject_id == b.subject_id && a.subject_relation == b.subject_relation))))

pub tuple_beq_iff : (a b : PermissionTuple) → (tuple_beq a b ≡ true) ↔ (a ≡ b)
tuple_beq_iff a b = ground (
  arith,
  label_eq_iff a.resource_type b.resource_type,
  text_eq_iff a.resource_id b.resource_id,
  label_eq_iff a.relation b.relation,
  label_eq_iff a.subject_type b.subject_type,
  text_eq_iff a.subject_id b.subject_id,
  label_eq_iff a.subject_relation b.subject_relation,
)

instance abbrev pub tuple_eq : Eq PermissionTuple
tuple_eq = record { beq = tuple_beq; beq_iff = tuple_beq_iff }

-- The order that `@dataclass(order=True)` gives: field by field.
tuple_key : PermissionTuple → List Text
tuple_key t =
    codes t.resource_type
    ∷ t.resource_id
    ∷ codes t.relation
    ∷ codes t.subject_type
    ∷ t.subject_id
    ∷ codes t.subject_relation
    ∷ []

unfoldable pub tuple_ltb : PermissionTuple → PermissionTuple → Bool
unfolding tuple_key texts_ltb
tuple_ltb a b = texts_ltb (tuple_key a) (tuple_key b)

-- `min(ts)`
unfoldable pub min_tuple : PermissionTuple → List PermissionTuple → PermissionTuple
min_tuple best [] = best
min_tuple best (t ∷ ts) = min_tuple (if tuple_ltb t best then t else best) ts

-- A revision `[]` asks for a fully consistent read, as the empty text does in the source.
pub record SpiceDb : Type 1 where
  pub World : Type 0
  pub read_managed_tuples : Text → Text → World → Option (List PermissionTuple) × World
  pub read_oauth_viewer_tuples : Text → Text → Text → World → Option (List PermissionTuple) × World
  pub write_updates : List PermissionTuple → List PermissionTuple → World → Option Text × World
  pub lookup_documents : Text → World → Option (List Text) × World

-- One user's direct grant of a document of the connection whose ids begin with `prefix`: the filter
-- of `read_oauth_viewer_tuples`.
unfoldable pub is_direct_grant : Text → Text → PermissionTuple → Bool
unfolding starts_with
is_direct_grant prefix user_id item =
    item.resource_type == "kgm/document"
    && (starts_with prefix item.resource_id
        && (item.relation == "oauth_viewer"
            && (item.subject_type == "kgm/user"
                && (item.subject_id == user_id && item.subject_relation == ""))))
