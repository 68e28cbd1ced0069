-- ===== src/Handlers/OpenApi/Balance.antt =====
-- The nodes of cJSON that a request to /api/openapi.json makes.
use sending_system.Base.{ℕ, suc, ◌-◌, ◌≡◌, Bool, none, some, Bytes}
use sending_system.Sqlite.{Sqlite}
use sending_system.Handlers.OpenApi.Document.{CjsonHeap}

-- `loose` counts the nodes that neither belong to another one nor are freed. Where its allocations
-- succeed, cJSON makes such a node when it creates or parses one, links one by an add of a node, and
-- frees one with all that belongs to it; what it adds by a name and a value belongs to its parent.
pub record IsCounted (C : CjsonHeap) : Type 0 where
  pub loose : C.Heap → ℕ
  pub made_object : (h : C.Heap) → loose (C.create_object h).1 ≡ suc (loose h)
  pub made_string : (s : Bytes) (h : C.Heap) → loose (C.create_string s h).1 ≡ suc (loose h)
  pub parsed :
      (s : Bytes) (h : C.Heap)
      → loose (C.parse s h).1
        ≡ (elim (C.parse s h).0 [ none ↦ loose h | some node ↦ suc (loose h) ])
  pub string_added :
      (o : C.Node) (key s : Bytes) (h : C.Heap) → loose (C.add_string o key s h) ≡ loose h
  pub bool_added :
      (o : C.Node) (key : Bytes) (b : Bool) (h : C.Heap) → loose (C.add_bool o key b h) ≡ loose h
  pub object_added :
      (o : C.Node) (key : Bytes) (h : C.Heap) → loose (C.add_object o key h).1 ≡ loose h
  pub array_added :
      (o : C.Node) (key : Bytes) (h : C.Heap) → loose (C.add_array o key h).1 ≡ loose h
  pub item_linked :
      (o : C.Node) (key : Bytes) (item : C.Node) (h : C.Heap)
      → loose (C.add_item o key item h) ≡ loose h - 1
  pub element_linked : (a item : C.Node) (h : C.Heap) → loose (C.add_element a item h) ≡ loose h - 1
  pub unprinted : (o : C.Node) (h : C.Heap) → loose (C.print_unformatted o h).1 ≡ loose h
  pub deleted : (o : C.Node) (h : C.Heap) → loose (C.delete o h) ≡ loose h - 1
