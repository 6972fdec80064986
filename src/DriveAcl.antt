-- ===== src/DriveAcl.antt =====
-- apps/backend/integrations/drive/permissions.py: the permission entries that Drive returns for a
-- file or folder, and the version of an access list. An entry's key may be missing, which is `none`;
-- a value of another type than Drive documents is not told from a missing key.
use knowledge_graph_mvp.Prelude.{
  Bool, List, Option, String, Text, [], any, codes, false, if◌then◌else◌, join, leb, list_eq, ltb,
  map, nat_eq, none, some, string_eq, texts_ltb, true, ℕ, ◌%◌, ◌&&◌, ◌++◌, ◌+◌, ◌-◌, ◌/◌, ◌==◌, ◌∷◌,
}

pub record PermissionDetail : Type 0 where
  pub inherited : Option Bool
  pub inherited_from : Option Text
  pub permission_type : Option Text
  pub role : Option Text

pub record Permission : Type 0 where
  pub id : Option Text
  pub type : Option String
  pub role : Option String
  pub email_address : Option Text
  pub domain : Option Text
  pub allow_file_discovery : Option Bool
  pub deleted : Option Bool
  pub pending_owner : Option Bool
  pub inherited : Option Bool
  pub inherited_from : Option Text
  pub permission_details : Option (List PermissionDetail)

-- `permission.get(key)` read as a test.
abbrev pub is_set : Option Bool → Bool
is_set none = false
is_set (some b) = b

-- `permission.get(key) == value`
abbrev pub is_label : Option String → String → Bool
is_label none value = false
is_label (some s) value = s == value

unfoldable pub has_public_link : List Permission → Bool
unfolding any
has_public_link = any (λ p. is_label p.type "anyone")

unfoldable pub has_domain_visibility : List Permission → Bool
unfolding any
has_domain_visibility = any (λ p. is_label p.type "domain")

-- The text of a string as `json.dumps` writes it by default, in ASCII.
hex : ℕ → ℕ
hex d = if ltb d 10 then 48 + d else 87 + d

escape : ℕ → Text
unfolding hex
escape c =
    codes "\\u" ++ (hex (c / 4096) ∷ hex (c / 256 % 16) ∷ hex (c / 16 % 16) ∷ hex (c % 16) ∷ [])

json_char : ℕ → Text
unfolding escape
json_char c =
    if c == b'"'
    then codes "\\\""
    else if c == 92
    then 92 ∷ 92 ∷ []
    else if c == 8
    then codes "\\b"
    else if c == 12
    then codes "\\f"
    else if c == 10
    then codes "\\n"
    else if c == 13
    then codes "\\r"
    else if c == 9
    then codes "\\t"
    else if leb 32 c && leb c 126
    then c ∷ []
    else if ltb c 65536
    then escape c
    else escape (55296 + (c - 65536) / 1024) ++ escape (56320 + (c - 65536) % 1024)

json_chars : Text → Text
unfolding json_char
json_chars [] = []
json_chars (c ∷ cs) = json_char c ++ json_chars cs

unfoldable pub ascii_string : Text → Text
unfolding json_chars
ascii_string cs = b'"' ∷ (json_chars cs ++ b'"' ∷ [])

-- One entry of a printed object; a missing key has none.
entry : {A : Type 0} → (A → Text) → String → Option A → List Text
entry print key none = []
entry print key (some value) = (b'"' ∷ (codes key ++ (codes "\":" ++ print value))) ∷ []

json_bool : Bool → Text
json_bool true = codes "true"
json_bool false = codes "false"

-- `json.dumps(..., separators=(",", ":"))` of an object with the printed entries, and of a list.
braces : List Text → Text
unfolding join
braces entries = b'{' ∷ (join (codes ",") entries ++ b'}' ∷ [])

brackets : List Text → Text
unfolding join
brackets printed = b'[' ∷ (join (codes ",") printed ++ b']' ∷ [])

detail_json : PermissionDetail → Text
unfolding braces entry json_bool ascii_string
detail_json d = braces (
    entry json_bool "inherited" d.inherited
    ++ (entry ascii_string "inheritedFrom" d.inherited_from
        ++ (entry ascii_string "permissionType" d.permission_type
            ++ entry ascii_string "role" d.role)))

-- `sorted(xs, key=key)` where keys are tuples of texts: a stable insertion sort.
unfoldable pub insert_on : {A : Type 0} → (A → List Text) → A → List A → List A
unfolding texts_ltb
insert_on key x [] = x ∷ []
insert_on key x (y ∷ ys) =
    let rest = insert_on key x ys in if texts_ltb (key y) (key x) then y ∷ rest else x ∷ y ∷ ys

unfoldable pub sort_on : {A : Type 0} → (A → List Text) → List A → List A
unfolding insert_on
sort_on key [] = []
sort_on key (x ∷ xs) = insert_on key x (sort_on key xs)

details_json : List PermissionDetail → Text
unfolding brackets detail_json sort_on
details_json details = brackets (map detail_json (sort_on (λ d. detail_json d ∷ []) details))

-- A canonical permission as it is printed, the keys in alphabetical order.
unfoldable pub canonical_permission : Permission → Text
unfolding braces entry json_bool ascii_string details_json
canonical_permission p = braces (
    entry json_bool "allowFileDiscovery" p.allow_file_discovery
    ++ (entry json_bool "deleted" p.deleted
        ++ (entry ascii_string "domain" p.domain
            ++ (entry ascii_string "emailAddress" p.email_address
                ++ (entry ascii_string "id" p.id
                    ++ (entry json_bool "inherited" p.inherited
                        ++ (entry ascii_string "inheritedFrom" p.inherited_from
                            ++ (entry json_bool "pendingOwner" p.pending_owner
                                ++ (entry details_json "permissionDetails" p.permission_details
                                    ++ (entry (λ s. ascii_string (codes s)) "role" p.role
                                        ++ entry (λ s. ascii_string (codes s)) "type"
                                            p.type))))))))))

text_or_empty : Option Text → Text
text_or_empty none = []
text_or_empty (some t) = t

label_or_empty : Option String → Text
label_or_empty none = []
label_or_empty (some s) = codes s

unfoldable pub permission_key : Permission → List Text
unfolding text_or_empty label_or_empty
permission_key p =
    text_or_empty p.id
    ∷ label_or_empty p.type
    ∷ text_or_empty p.email_address
    ∷ text_or_empty p.domain
    ∷ label_or_empty p.role
    ∷ []

unfoldable pub source_permissions_version : (Text → Text) → List Permission → Text
unfolding brackets canonical_permission permission_key sort_on
source_permissions_version sha256 permissions =
    sha256 (brackets (map canonical_permission (sort_on permission_key permissions)))
