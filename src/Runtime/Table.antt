-- ===== src/Runtime/Table.antt =====
-- crates/aidoku-runtime/src/resource.rs: handles, and the objects behind them.
pub mod Fresh
use nyuka.Common.{
  ℕ, suc, ◌+◌, ◌%◌, ◌^◌, ◌≤◌, ◌==◌, Bool, true, false, not, Option, none, some, List, [], ◌∷◌,
  length, find, keep, Text, if◌then◌else◌,
}

pub record Response : Type 0 where
  pub status : ℕ
  pub headers : List (Text × Text)
  pub body : List ℕ
  pub final_url : Option Text

pub record Request : Type 0 where
  pub method : ℕ
  pub url : Option Text
  pub headers : List (Text × Text)
  pub body : Option (List ℕ)
  pub response : Option Response

-- `Document` and `NodeId` are the HTML parser's.
module _ (Document NodeId : Type 0) where
  pub record Html : Type 0 where
    pub doc : Document
    pub base : Option Text

  pub data Resource : Type 0 where
    buffer : List ℕ → Resource
    request : Request → Resource
    node : Html → NodeId → Resource
    node_list : Html → List NodeId → Resource

  -- A handle is an `i32`, kept as the number below 2^32 with its bits.
  pub record Table : Type 0 where
    pub entries : List (ℕ × Resource)
    pub next : ℕ

  abbrev pub new : Table
  new = record { entries = []; next = 0 }

  unfoldable pub lookup : ℕ → List (ℕ × Resource) → Option Resource
  lookup id [] = none
  lookup id (e ∷ es) = let rest = lookup id es in if e.0 == id then some e.1 else rest

  unfoldable pub without : ℕ → List (ℕ × Resource) → List (ℕ × Resource)
  without id [] = []
  without id (e ∷ es) = let rest = without id es in if e.0 == id then rest else e ∷ rest

  -- The counter wraps, as it does in a release build.
  unfoldable pub insert : Resource → Table → ℕ × Table
  insert r t =
      let id = (t.next + 1) % 2 ^ 32 in
      (id, record { entries = (id, r) ∷ without id t.entries; next = id })

  unfoldable pub get : ℕ → Table → Option Resource
  get id t = lookup id t.entries

  unfoldable pub remove : ℕ → Table → Table
  remove id t = record t { entries = without id t.entries }

  unfoldable pub as_buffer : ℕ → Table → Option (List ℕ)
  as_buffer id t = elim (get id t) [ some (buffer b) ↦ some b | _ ↦ none ]

  unfoldable pub as_node : ℕ → Table → Option (Html × NodeId)
  as_node id t = elim (get id t) [ some (node h n) ↦ some (h, n) | _ ↦ none ]

  unfoldable pub as_request : ℕ → Table → Option Request
  as_request id t = elim (get id t) [ some (request r) ↦ some r | _ ↦ none ]

  -- `get_mut` and `request_mut`: what the caller does to the object behind the handle.
  unfoldable pub changed : ℕ → (Resource → Resource) → List (ℕ × Resource) → List (ℕ × Resource)
  changed id f [] = []
  changed id f (e ∷ es) = (if e.0 == id then (e.0, f e.1) else e) ∷ changed id f es

  unfoldable pub change : ℕ → (Resource → Resource) → Table → Table
  change id f t = record t { entries = changed id f t.entries }
