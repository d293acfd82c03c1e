-- ===== src/DeepCopy/Memory.antt =====
-- The memory under the `DeepCopyInto` functions: pointers and slices are references into a heap,
-- which a copy must not share with its source.
pub mod Areas
use opsmanager_crossplane_pr.Common.{
  ℕ, suc, ◌≡◌, refl, ◌∙◌, ◌≢◌, ◌≤◌, ◌<◌, ℤ, pos, Bool, false, Option, none, some, List, [], ◌∷◌,
  String, ◌==◌, nat_eq, if◌then◌else◌, arith,
}
use opsmanager_crossplane_pr.Managed.{SecretKeySelector}

-- A pointer to an `A`, or the array of a slice where `A` is a list.
pub record Ref (A : Type 0) : Type 0 where
  pub address : ℕ

-- `LDAPGroupMapping`
pub record MappingCell : Type 0 where
  pub role_name : String
  pub ldap_groups : Option (Ref (List String))

-- `SnapshotSchedule`
pub record ScheduleCell : Type 0 where
  pub snapshot_retention_days : Option (Ref ℤ)
  pub daily_snapshot_retention_days : Option (Ref ℤ)
  pub weekly_snapshot_retention_weeks : Option (Ref ℤ)
  pub monthly_snapshot_retention_months : Option (Ref ℤ)
  pub point_in_time_window_hours : Option (Ref ℤ)
  pub snapshot_interval_hours : Option (Ref ℤ)
  pub cluster_checkpoint_interval_min : Option (Ref ℤ)
  pub reference_hour_of_day : Option (Ref ℤ)
  pub reference_minute_of_hour : Option (Ref ℤ)

-- What is allocated has an address below `next`. An address is used at one type.
pub record Heap : Type 0 where
  pub next : ℕ
  pub bools : ℕ → Bool
  pub ints : ℕ → ℤ
  pub texts : ℕ → List String
  pub selectors : ℕ → SecretKeySelector
  pub mappings : ℕ → List MappingCell
  pub schedules : ℕ → ScheduleCell

-- The heaps agree on the addresses in `P`.
pub record SameOn (P : ℕ → Type 0) (h g : Heap) : Type 0 where
  pub bools : (a : ℕ) → P a → g.bools a ≡ h.bools a
  pub ints : (a : ℕ) → P a → g.ints a ≡ h.ints a
  pub texts : (a : ℕ) → P a → g.texts a ≡ h.texts a
  pub selectors : (a : ℕ) → P a → g.selectors a ≡ h.selectors a
  pub mappings : (a : ℕ) → P a → g.mappings a ≡ h.mappings a
  pub schedules : (a : ℕ) → P a → g.schedules a ≡ h.schedules a

pub SameOn-self : {P : ℕ → Type 0} (h : Heap) → SameOn P h h
SameOn-self h = record {
  bools = λ a p. refl;
  ints = λ a p. refl;
  texts = λ a p. refl;
  selectors = λ a p. refl;
  mappings = λ a p. refl;
  schedules = λ a p. refl;
}

pub SameOn-next : {P : ℕ → Type 0} (h : Heap) (n : ℕ) → SameOn P h (record h { next = n })
SameOn-next h n = record {
  bools = λ a p. refl;
  ints = λ a p. refl;
  texts = λ a p. refl;
  selectors = λ a p. refl;
  mappings = λ a p. refl;
  schedules = λ a p. refl;
}

pub SameOn-weaken :
    {P Q : ℕ → Type 0} {h g : Heap} → SameOn Q h g → ((a : ℕ) → P a → Q a) → SameOn P h g
SameOn-weaken s within = record {
  bools = λ a p. s.bools a (within a p);
  ints = λ a p. s.ints a (within a p);
  texts = λ a p. s.texts a (within a p);
  selectors = λ a p. s.selectors a (within a p);
  mappings = λ a p. s.mappings a (within a p);
  schedules = λ a p. s.schedules a (within a p);
}

pub SameOn-later :
    {P Q : ℕ → Type 0} {h g k : Heap}
    → SameOn P h g
    → SameOn Q g k
    → ((a : ℕ) → P a → Q a)
    → SameOn P h k
SameOn-later s t within = record {
  bools = λ a p. t.bools a (within a p) ∙ s.bools a p;
  ints = λ a p. t.ints a (within a p) ∙ s.ints a p;
  texts = λ a p. t.texts a (within a p) ∙ s.texts a p;
  selectors = λ a p. t.selectors a (within a p) ∙ s.selectors a p;
  mappings = λ a p. t.mappings a (within a p) ∙ s.mappings a p;
  schedules = λ a p. t.schedules a (within a p) ∙ s.schedules a p;
}

abbrev pub set : {A : Type 0} → (ℕ → A) → ℕ → A → ℕ → A
set f a v b = if a == b then v else f b

-- Where the heap keeps values of a type, and the value that `new` and `make` leave there.
pub record Area (A : Type 0) : Type 1 where
  pub read : Heap → ℕ → A
  pub write : ℕ → A → Heap → Heap
  pub zero_value : A
  pub read-write : (a : ℕ) (v : A) (h : Heap) → read (write a v h) a ≡ v
  pub next-write : (a : ℕ) (v : A) (h : Heap) → (write a v h).next ≡ h.next
  pub read_same : (P : ℕ → Type 0) (h g : Heap) → SameOn P h g → (a : ℕ) → P a → read g a ≡ read h a
  pub write_same :
      (P : ℕ → Type 0) (a : ℕ) (v : A) (h : Heap)
      → ((b : ℕ) → P b → a ≢ b)
      → SameOn P h (write a v h)

pub set_same : {A : Type 0} (f : ℕ → A) (a : ℕ) (v : A) → set f a v a ≡ v
set_same f a v = ground arith

pub same_but : {A : Type 0} (f : ℕ → A) (a : ℕ) (v : A) (b : ℕ) → a ≢ b → set f a v b ≡ f b
same_but f a v b n = ground arith

-- What a copy does: it allocates, and returns what it has made.
abbrev pub Alloc : Type 0 → Type 0
Alloc A = Heap → A × Heap

infixl 5 ◌>>=◌ ◌>>◌
abbrev pub ◌>>=◌ : {A B : Type 0} → Alloc A → (A → Alloc B) → Alloc B
◌>>=◌ m f h = let (a, g) = m h in f a g

abbrev pub ◌>>◌ : {B : Type 0} → Alloc (Unit {0}) → Alloc B → Alloc B
m >> k = m >>= λ _. k

abbrev pub return : {A : Type 0} → A → Alloc A
return a h = (a, h)

module _ {A : Type 0} ⦃area : Area A⦄ where
  -- `new(A)`, and `make` for a slice.
  unfoldable pub allocate : Alloc (Ref A)
  allocate h = (
    record { address = h.next },
    area.write h.next area.zero_value (record h { next = suc h.next }),
  )

  -- `*r`
  abbrev pub load : Ref A → Alloc A
  load r h = (area.read h r.address, h)

  -- `*r = v`
  abbrev pub store : Ref A → A → Alloc (Unit {0})
  store r v h = (tt, area.write r.address v h)
