-- ===== src/DeepCopy/Lists/Items/Writes.antt =====
-- Writes through the pointers of `GetItems`.
use opsmanager_crossplane_pr.Common.{
  ℕ, zero, suc, ◌≡◌, refl, ◌∙◌, ap, sym, ◌+◌, ◌≤◌, true, Option, none, some, is_some, List, [], ◌∷◌,
  arith,
}
use opsmanager_crossplane_pr.DeepCopy.Memory.{Ref, set_same, same_but}
use opsmanager_crossplane_pr.DeepCopy.Copying.{Copying, Below, Between, IsDeep}
use opsmanager_crossplane_pr.DeepCopy.Copying.Slices.{view_each, each-IsDeep}
use opsmanager_crossplane_pr.DeepCopy.Lists.{KindList, Store, copy_list, view_items, view_list}
use opsmanager_crossplane_pr.DeepCopy.Lists.Copied.{
  WithinItems, WithinList, Kept, copy_list-ListCopied,
}
use opsmanager_crossplane_pr.DeepCopy.Lists.Items.{
  ItemPointer, get_elem?, update, pointers, items_of, pointers_to, get_items, read_item, write_item,
}

module _ {I : Type 0} where
  -- The pointer at a place leads to the element at that place.
  get_elem?-pointers :
      (a i : ℕ) (xs : List I) (n : ℕ) {p : ItemPointer}
      → get_elem? (pointers a i xs) n ≡ some p
      → (p.array ≡ a) × (p.index ≡ i + n) × (is_some (get_elem? xs n) ≡ true)
  unfolding get_elem? pointers
  get_elem?-pointers a i [] n h = absurd (ground arith)
  get_elem?-pointers a i (x ∷ xs) zero h = (
    sym (ap (λ o. elim o [ some q ↦ q.array | none ↦ a ]) h),
    sym (ap (λ o. elim o [ some q ↦ q.index | none ↦ i ]) h) ∙ omega arith,
    refl,
  )
  get_elem?-pointers a i (x ∷ xs) (suc n) h =
      let (e, f, g) = get_elem?-pointers a (suc i) xs n h in (e, omega (arith, f), g)

  get_elem?-update :
      (n : ℕ) (v : I) (xs : List I)
      → is_some (get_elem? xs n) ≡ true
      → get_elem? (update n v xs) n ≡ some v
  unfolding get_elem? update
  get_elem?-update n v [] h = absurd (ground arith)
  get_elem?-update zero v (x ∷ xs) h = refl
  get_elem?-update (suc n) v (x ∷ xs) h = get_elem?-update n v xs h

  no_pointer :
      (a i : ℕ) (xs : List I) (n : ℕ) → get_elem? (pointers a i xs) n ≡ none → get_elem? xs n ≡ none
  unfolding get_elem? pointers
  no_pointer a i [] n h = refl
  no_pointer a i (x ∷ xs) zero h = absurd (ground arith)
  no_pointer a i (x ∷ xs) (suc n) h = no_pointer a (suc i) xs n h

  -- What the pointer reads, if there is one.
  abbrev pub read_pointer : Store I → Option ItemPointer → Option I
  read_pointer m none = none
  read_pointer m (some p) = read_item p m

  read_place :
      (m : Store I) (a n : ℕ) (o : Option ItemPointer)
      → get_elem? (pointers a 0 (m.arrays a)) n ≡ o
      → read_pointer m o ≡ get_elem? (m.arrays a) n
  unfolding read_item
  read_place m a n none e = sym (no_pointer a 0 (m.arrays a) n e)
  read_place m a n (some p) e =
      let (x, y, z) = get_elem?-pointers a 0 (m.arrays a) n e in
      let place : p.index ≡ n = omega (arith, y) in λ i. get_elem? (m.arrays (x i)) (place i)

  read-pointers_to :
      (m : Store I) (items : Option (Ref (List I))) (n : ℕ)
      → read_pointer m (get_elem? (pointers_to m items) n) ≡ get_elem? (items_of m items) n
  unfolding get_elem?
  read-pointers_to m none n = refl
  read-pointers_to m (some r) n = read_place m r.address n _ refl

  module _ {L : Type 0} where
    -- The pointer at a place of `GetItems` leads to the item at that place, and there is one
    -- exactly where the list has an item.
    pub read-get_items :
        (l : KindList L I) (m : Store I) (n : ℕ)
        → read_pointer m (get_elem? (get_items l m) n) ≡ get_elem? (items_of m l.items) n
    unfolding get_items
    read-get_items l m n = read-pointers_to m l.items n

  -- The array of a pointer of `GetItems` is that of the list.
  pointers_to-array :
      (m : Store I) (items : Option (Ref (List I))) (n : ℕ) {p : ItemPointer}
      → get_elem? (pointers_to m items) n ≡ some p
      → (r : Ref (List I)) × (items ≡ some r)
        × (p.array ≡ r.address)
        × (p.index ≡ n)
        × (is_some (get_elem? (m.arrays r.address) n) ≡ true)
  unfolding get_elem?
  pointers_to-array m none n h = absurd (ground arith)
  pointers_to-array m (some r) n h =
      let (x, y, z) = get_elem?-pointers r.address 0 (m.arrays r.address) n h in
      (r, refl, x, y ∙ omega arith, z)

  -- A write through a pointer, and what it leaves in the array.
  written :
      (m : Store I) (p : ItemPointer) (v : I)
      → is_some (get_elem? (m.arrays p.array) p.index) ≡ true
      → let k = write_item p v m in
        (read_item p k ≡ some v) × (k.arrays p.array ≡ update p.index v (m.arrays p.array))
  unfolding read_item write_item
  written m p v h =
      let e = set_same m.arrays p.array (update p.index v (m.arrays p.array)) in
      (ap (λ xs. get_elem? xs p.index) e ∙ get_elem?-update p.index v (m.arrays p.array) h, e)

  items_written :
      (k : Store I) (p : ItemPointer) (v : I) (items : Option (Ref (List I))) (r : Ref (List I))
      {n : ℕ}
      → items ≡ some r
      → p.array ≡ r.address
      → p.index ≡ n
      → (write_item p v k).arrays p.array ≡ update p.index v (k.arrays p.array)
      → items_of (write_item p v k) items ≡ update n v (items_of k items)
  items_written k p v items r {n = n} e x y two =
      ap (items_of (write_item p v k)) e
      ∙ ap (write_item p v k).arrays (sym x)
      ∙ two
      ∙ (λ i. update (y i) v (k.arrays (x i)))
      ∙ ap (update n v) (ap (items_of k) (sym e))

module _ {L LV I V : Type 0} (meta : Copying L LV) (item : Copying I V) (meta_deep : IsDeep meta)
    (item_deep : IsDeep item) where
  same_items :
      (m k : Store I) (items : Option (Ref (List I)))
      → WithinItems meta item (Below m.heap.next) (Below m.next) m items
      → Kept meta item m k
      → view_items meta item k items ≡ view_items meta item m items
  same_items m k none w s = refl
  same_items m k (some r) (inside, ws) s = ap some (
      ap (view_each item k.heap) (s.arrays_kept r.address inside)
      ∙ (each-IsDeep item item_deep).view_same _ m.heap k.heap (m.arrays r.address) ws s.kept)

  -- A list reads as before if all that was allocated is as before.
  same_list :
      (m k : Store I) (l : KindList L I)
      → WithinList meta item (Below m.heap.next) (Below m.next) m l
      → Kept meta item m k
      → view_list meta item k l ≡ view_list meta item m l
  unfolding view_list
  same_list m k l (w, ws) s = λ i. record {
    type_meta = l.type_meta;
    list_meta = meta_deep.view_same _ m.heap k.heap l.list_meta w s.kept i;
    items = same_items m k l.items ws s i;
  }

  -- A write into a later array leaves what was allocated before.
  later_write :
      (m k : Store I) (p : ItemPointer) (v : I)
      → Kept meta item m k
      → m.next ≤ p.array
      → Kept meta item m (write_item p v k)
  unfolding write_item
  later_write m k p v s l = record {
    kept = s.kept;
    arrays_kept = λ a b.
        same_but k.arrays p.array (update p.index v (k.arrays p.array)) a
          (λ e. omega (arith, l, b, e))
        ∙ s.arrays_kept a b;
  }

  -- A new value that is written through a pointer of `GetItems` of the deep copy of a list is the
  -- item at that place of the copy, the other items of the copy are as they were, and the list that
  -- was copied reads as it did.
  pub copy_list-write_item :
      (m : Store I) (l : KindList L I)
      → WithinList meta item (Below m.heap.next) (Below m.next) m l
      → (n : ℕ) (p : ItemPointer) (v : I)
      → let (q, k) = copy_list meta item l m in
        get_elem? (get_items q k) n ≡ some p
        → (read_item p (write_item p v k) ≡ some v)
          × (items_of (write_item p v k) q.items ≡ update n v (items_of k q.items))
          × (view_list meta item (write_item p v k) l ≡ view_list meta item m l)
  unfolding get_items
  copy_list-write_item m l w n p v h =
      let (q, k) = copy_list meta item l m in
      let c = copy_list-ListCopied meta item meta_deep item_deep m l w in
      let (r, e, x, y, z) = pointers_to-array k q.items n h in
      let (one, two) = written k p v (rw (x, y) z) in
      let new : Between m.next k.next r.address = (rw e at c.fresh.1).0 in
      (
        one,
        items_written k p v q.items r e x y two,
        same_list m (write_item p v k) l w
            (later_write m k p v c.same_before (omega (arith, x, new.0))),
      )
