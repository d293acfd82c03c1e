-- ===== src/DeepCopy/Lists/Copied.antt =====
-- What the deep copy of a list and its source are to each other.
use opsmanager_crossplane_pr.Common.{
  ℕ, ◌≡◌, refl, ap, ◌≤◌, ◌<◌, Option, none, some, List, [], ◌∙◌, arith,
}
use opsmanager_crossplane_pr.DeepCopy.Memory.{Ref, SameOn, set, set_same, same_but}
use opsmanager_crossplane_pr.DeepCopy.Copying.{Copying, Below, Between, IsDeep, both-IsDeep}
use opsmanager_crossplane_pr.DeepCopy.Copying.Slices.{copy_each, view_each, EachWithin, each-IsDeep}
use opsmanager_crossplane_pr.DeepCopy.Lists.{KindList, Store, copy_items, copy_list, view_list}

module _ {L LV I V : Type 0} (meta : Copying L LV) (item : Copying I V) where
  -- What a list reaches is in `P`, and its array is in `Q`.
  abbrev pub WithinItems : (ℕ → Type 0) → (ℕ → Type 0) → Store I → Option (Ref (List I)) → Type 0
  WithinItems P Q m none = Unit
  WithinItems P Q m (some r) = Q r.address × EachWithin item P m.heap (m.arrays r.address)

  abbrev pub WithinList : (ℕ → Type 0) → (ℕ → Type 0) → Store I → KindList L I → Type 0
  WithinList P Q m l = meta.Within P m.heap l.list_meta × WithinItems P Q m l.items

  -- What was allocated is as it was.
  pub record Kept (m k : Store I) : Type 0 where
    pub kept : SameOn (Below m.heap.next) m.heap k.heap
    pub arrays_kept : (a : ℕ) → a < m.next → k.arrays a ≡ m.arrays a

  -- What a deep copy `q` of the list `l` of the memory `m` is in the memory `k` that it leaves.
  pub record ListCopied (m : Store I) (l : KindList L I) (q : KindList L I) (k : Store I)
      : Type 0 where
    pub heap_grown : m.heap.next ≤ k.heap.next
    pub grown : m.next ≤ k.next
    pub same_before : Kept m k
    pub fresh : WithinList (Between m.heap.next k.heap.next) (Between m.next k.next) k q
    pub same_value : view_list meta item k q ≡ view_list meta item m l

module _ {L LV I V : Type 0} (meta : Copying L LV) (item : Copying I V) (meta_deep : IsDeep meta)
    (item_deep : IsDeep item) where
  -- What a list with these items needs for its copy to be deep.
  abbrev CopiedWith : Store I → KindList L I → Option (Ref (List I)) → Type 0
  CopiedWith m l items =
      let l = record l { items = items } in
      WithinList meta item (Below m.heap.next) (Below m.next) m l
      → let (q, k) = copy_list meta item l m in ListCopied meta item m l q k

  copied_with :
      (m : Store I) (l : KindList L I) (items : Option (Ref (List I))) → CopiedWith m l items
  unfolding copy_list copy_items view_list
  copied_with m l none w =
      let d = meta_deep.copied m.heap l.list_meta w.0 in
      record {
        heap_grown = d.grown;
        grown = omega arith;
        same_before = record { kept = d.kept; arrays_kept = λ a b. refl };
        fresh = (d.fresh, tt);
        same_value =
            λ i. record { type_meta = l.type_meta; list_meta = d.same_value i; items = none };
      }
  copied_with m l (some r) (w, (inside, ws)) =
      let made = set m.arrays m.next [] in
      let back = same_but m.arrays m.next [] r.address (λ e. omega (arith, inside, e)) in
      let d =
        (both-IsDeep meta_deep (each-IsDeep item item_deep)).copied m.heap
          (l.list_meta, made r.address) (w, rw back ws) in
      let h = (meta.copy l.list_meta m.heap).1 in
      let (ys, g) = copy_each item (made r.address) h in
      let here = set_same made m.next ys in
      let value =
        ap (view_each item g) here
        ∙ ap (λ (x : _ × _). x.1) d.same_value
        ∙ ap (view_each item m.heap) back in
      record {
        heap_grown = d.grown;
        grown = omega arith;
        same_before = record {
          kept = d.kept;
          arrays_kept = λ a b.
              same_but made m.next ys a (λ e. omega (arith, b, e))
              ∙ same_but m.arrays m.next [] a (λ e. omega (arith, b, e));
        };
        fresh = (d.fresh.0, ((omega arith, omega arith), rw here d.fresh.1));
        same_value = λ i. record {
          type_meta = l.type_meta;
          list_meta = (d.same_value i).0;
          items = some (value i);
        };
      }

  -- If the copies of `ListMeta` and of an item are deep, so is that of a list.
  pub copy_list-ListCopied :
      (m : Store I) (l : KindList L I)
      → WithinList meta item (Below m.heap.next) (Below m.next) m l
      → let (q, k) = copy_list meta item l m in ListCopied meta item m l q k
  copy_list-ListCopied m l w = copied_with m l l.items w
