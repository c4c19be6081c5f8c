-- ===== src/Json.antt =====
-- `serde_json::Value`, as far as the request bodies of the client use it. An object lists its
-- members in the order in which they are written or inserted.
use stack_connect_core.Prelude.{ℕ, ℤ, String, Bool, Option, none, some, List, [], ◌∷◌}

mutual
  pub data Json : Type 0 where
    text : String → Json
    number : ℕ → Json
    integer : ℤ → Json
    flag : Bool → Json
    array : Items → Json
    object : Members → Json

  pub data Items : Type 0 where
    stop : Items
    item : Json → Items → Items

  pub data Members : Type 0 where
    end : Members
    member : String → Json → Members → Members

-- `{ "key": value }`
abbrev pub single : String → Json → Json
single key value = object (member key value end)

-- `{ "type": kind, "id": id }`
abbrev pub identifier : String → String → Json
identifier kind id = object (member "type" (text kind) (member "id" (text id) end))

-- `{ "data": value }`
abbrev pub document : Json → Json
document value = single "data" value

-- `{ "data": { "type": kind, "id": id } }`
abbrev pub to_one : String → String → Json
to_one kind id = document (identifier kind id)

-- The body of a `PATCH`: `{ "data": { "type": kind, "id": id, "attributes": attributes } }`
abbrev pub changes : String → String → Members → Json
changes kind id attributes = document (
    object (
      member "type" (text kind)
        (member "id" (text id) (member "attributes" (object attributes) end))))

-- The body of a `POST`, with the relationships of what is made.
abbrev pub creation : String → Members → Members → Json
creation kind attributes relationships = document (
    object (
      member "type" (text kind) (
        member "attributes" (object attributes)
          (member "relationships" (object relationships) end))))

-- The body of a `POST` without relationships.
abbrev pub plain_creation : String → Members → Json
plain_creation kind attributes =
    document (object (member "type" (text kind) (member "attributes" (object attributes) end)))

-- Members that are inserted into a `serde_json::Map` if there is a value.
abbrev pub member_if : String → Option String → Members → Members
member_if key none rest = rest
member_if key (some value) rest = member key (text value) rest

abbrev pub texts : List String → Items
texts [] = stop
texts (x ∷ xs) = item (text x) (texts xs)

abbrev pub flag_if : String → Option Bool → Members → Members
flag_if key none rest = rest
flag_if key (some value) rest = member key (flag value) rest

abbrev pub integer_if : String → Option ℤ → Members → Members
integer_if key none rest = rest
integer_if key (some value) rest = member key (integer value) rest

-- The identifiers of resources of one kind.
abbrev pub identifiers : String → List String → Items
identifiers kind [] = stop
identifiers kind (id ∷ ids) = item (identifier kind id) (identifiers kind ids)
