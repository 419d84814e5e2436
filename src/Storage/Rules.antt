-- ===== src/Storage/Rules.antt =====
-- Rules for what an action leaves as it was, by which the services' properties are put together.
use bulq.Common.{
  ◌≡◌, refl, sym, ap, subst, ◌∙◌, Bool, true, false, Option, none, some, if◌then◌else◌,
}
use bulq.Error.{Result, ok, err, Error}
use bulq.Model.{MemoryStorage, DomainEvent}
use bulq.Storage.{
  Action, pure, raise, gets, lift, or_raise, raise_if, modify, emit, draw_uuid4, resume, ◌>>=◌,
}

-- The action only reads.
pub record Reads {A : Type 0} (m : Action A) : Type 0 where
  pub at : (s : MemoryStorage) → (m s).1 ≡ s

-- An action that raises has changed nothing.
pub record IsAtomic {A : Type 0} (m : Action A) : Type 0 where
  pub at : (s : MemoryStorage) (e : Error) → (m s).0 ≡ err e → (m s).1 ≡ s

-- The action does not raise.
pub record Returns {A : Type 0} (m : Action A) : Type 0 where
  pub at : (s : MemoryStorage) → (a : A) × ((m s).0 ≡ ok a)

-- The action keeps a property of the storage, whether it returns or raises.
pub record Keeps {A : Type 0} (P : MemoryStorage → Type 0) (m : Action A) : Type 0 where
  pub at : (s : MemoryStorage) → P s → P (m s).1

module _ {A : Type 0} where
  pub Reads-pure : (a : A) → Reads (pure a)
  unfolding pure
  Reads-pure a = record { at = λ s. refl }

  pub Reads-raise : (e : Error) → Reads (raise {A = A} e)
  unfolding raise
  Reads-raise e = record { at = λ s. refl }

  pub Reads-gets : (f : MemoryStorage → A) → Reads (gets f)
  unfolding gets
  Reads-gets f = record { at = λ s. refl }

  pub Reads-lift : (r : Result A) → Reads (lift r)
  unfolding lift
  Reads-lift r = record { at = λ s. refl }

  pub Reads-or_raise : (e : Error) (o : Option A) → Reads (or_raise e o)
  unfolding or_raise
  Reads-or_raise e none = record { at = λ s. refl }
  Reads-or_raise e (some a) = record { at = λ s. refl }

  pub Reads-if : (b : Bool) (m k : Action A) → Reads m → Reads k → Reads (if b then m else k)
  Reads-if true m k hm hk = hm
  Reads-if false m k hm hk = hk

  pub IsAtomic-Reads : (m : Action A) → Reads m → IsAtomic m
  IsAtomic-Reads m h = record { at = λ s e _. h.at s }

  pub IsAtomic-Returns : (m : Action A) → Returns m → IsAtomic m
  IsAtomic-Returns m h = record { at = λ s e p. let (a, q) = h.at s in cc }

  pub IsAtomic-if :
      (b : Bool) (m k : Action A) → IsAtomic m → IsAtomic k → IsAtomic (if b then m else k)
  IsAtomic-if true m k hm hk = hm
  IsAtomic-if false m k hm hk = hk

  pub Returns-if :
      (b : Bool) (m k : Action A) → Returns m → Returns k → Returns (if b then m else k)
  Returns-if true m k hm hk = hm
  Returns-if false m k hm hk = hk

  pub Returns-pure : (a : A) → Returns (pure a)
  unfolding pure
  Returns-pure a = record { at = λ s. (a, refl) }

  pub Returns-gets : (f : MemoryStorage → A) → Returns (gets f)
  unfolding gets
  Returns-gets f = record { at = λ s. (f s, refl) }

  pub Keeps-Reads : (P : MemoryStorage → Type 0) (m : Action A) → Reads m → Keeps P m
  Keeps-Reads P m h = record { at = λ s p. subst P (sym (h.at s)) p }

pub Reads-raise_if : (b : Bool) (e : Error) → Reads (raise_if b e)
unfolding raise_if
Reads-raise_if true e = record { at = λ s. refl }
Reads-raise_if false e = record { at = λ s. refl }

pub Returns-modify : (f : MemoryStorage → MemoryStorage) → Returns (modify f)
unfolding modify
Returns-modify f = record { at = λ s. (tt, refl) }

pub Returns-emit : (e : DomainEvent) → Returns (emit e)
unfolding emit
Returns-emit e = record { at = λ s. (tt, refl) }

pub Returns-draw_uuid4 : Returns draw_uuid4
unfolding draw_uuid4
Returns-draw_uuid4 = record { at = λ s. (s.uuid4 0, refl) }

module _ {A B : Type 0} (m : Action A) (f : A → Action B) where
  pub Reads-bind : Reads m → ((a : A) → Reads (f a)) → Reads (m >>= f)
  unfolding ◌>>=◌
  Reads-bind hm hf = record { at = λ s. go (m s).0 (m s).1 ∙ hm.at s }
    where
      go : (r : Result A) (s : MemoryStorage) → (resume f r s).1 ≡ s
      go (ok a) s = (hf a).at s
      go (err e) s = refl

  pub IsAtomic-bind : Reads m → ((a : A) → IsAtomic (f a)) → IsAtomic (m >>= f)
  unfolding ◌>>=◌
  IsAtomic-bind hm hf = record { at = λ s e p. go (m s).0 (m s).1 e p ∙ hm.at s }
    where
      go :
          (r : Result A) (s : MemoryStorage) (e : Error)
          → (resume f r s).0 ≡ err e
          → (resume f r s).1 ≡ s
      go (ok a) s e p = (hf a).at s e p
      go (err x) s e p = refl

  -- What comes after a write must not raise.
  pub IsAtomic-bind_last : IsAtomic m → ((a : A) → Returns (f a)) → IsAtomic (m >>= f)
  unfolding ◌>>=◌
  IsAtomic-bind_last hm hf = record { at = λ s e p. go (m s).0 (m s).1 e p (hm.at s) }
    where
      go :
          {t : MemoryStorage} (r : Result A) (s : MemoryStorage) (e : Error)
          → (resume f r s).0 ≡ err e
          → ((x : Error) → r ≡ err x → s ≡ t)
          → (resume f r s).1 ≡ t
      go (ok a) s e p h = let (b, q) = (hf a).at s in cc
      go (err x) s e p h = h x refl

  pub Returns-bind : Returns m → ((a : A) → Returns (f a)) → Returns (m >>= f)
  unfolding ◌>>=◌
  Returns-bind hm hf = record { at = λ s. let (a, p) = hm.at s in rw p ((hf a).at (m s).1) }

  pub Keeps-bind :
      {P : MemoryStorage → Type 0} → Keeps P m → ((a : A) → Keeps P (f a)) → Keeps P (m >>= f)
  unfolding ◌>>=◌
  Keeps-bind {P} hm hf = record { at = λ s p. go (m s).0 (m s).1 (hm.at s p) }
    where
      go : (r : Result A) (s : MemoryStorage) → P s → P (resume f r s).1
      go (ok a) s p = (hf a).at s p
      go (err e) s p = p

pub Keeps-if :
    {A : Type 0} (P : MemoryStorage → Type 0) (b : Bool) (m k : Action A)
    → Keeps P m
    → Keeps P k
    → Keeps P (if b then m else k)
Keeps-if P true m k hm hk = hm
Keeps-if P false m k hm hk = hk

-- The action leaves a part of the storage as it was, whether it returns or raises.
pub record Leaves {ℓ} {A : Type 0} {V : Type ℓ} (part : MemoryStorage → V) (m : Action A)
    : Type ℓ where
  pub at : (s : MemoryStorage) → part (m s).1 ≡ part s

module _ {ℓ} {V : Type ℓ} (part : MemoryStorage → V) where
  pub Leaves-Reads : {A : Type 0} (m : Action A) → Reads m → Leaves part m
  Leaves-Reads m h = record { at = λ s. ap part (h.at s) }

  pub Leaves-modify :
      (f : MemoryStorage → MemoryStorage)
      → ((s : MemoryStorage) → part (f s) ≡ part s)
      → Leaves part (modify f)
  unfolding modify
  Leaves-modify f h = record { at = h }

  pub Leaves-if :
      {A : Type 0} (b : Bool) (m k : Action A)
      → Leaves part m
      → Leaves part k
      → Leaves part (if b then m else k)
  Leaves-if true m k hm hk = hm
  Leaves-if false m k hm hk = hk

  pub Leaves-bind :
      {A B : Type 0} (m : Action A) (f : A → Action B)
      → Leaves part m
      → ((a : A) → Leaves part (f a))
      → Leaves part (m >>= f)
  unfolding ◌>>=◌
  Leaves-bind {A} m f hm hf = record { at = λ s. go (m s).0 (m s).1 ∙ hm.at s }
    where
      go : (r : Result A) (s : MemoryStorage) → part (resume f r s).1 ≡ part s
      go (ok a) s = (hf a).at s
      go (err e) s = refl

pub ruleset reads_rules = (
  Reads-pure, Reads-raise, Reads-gets, Reads-lift, Reads-or_raise, Reads-if, Reads-raise_if,
  Reads-bind,
)

pub ruleset returns_rules = (
  Returns-pure, Returns-gets, Returns-if, Returns-modify, Returns-emit, Returns-draw_uuid4,
  Returns-bind,
)

pub ruleset atomic_rules =
    (reads_rules, returns_rules, IsAtomic-Reads, IsAtomic-Returns, IsAtomic-if, IsAtomic-bind)

pub ruleset keeps_rules = (reads_rules, Keeps-Reads, Keeps-if, Keeps-bind)

pub ruleset leaves_rules = (reads_rules, Leaves-Reads, Leaves-if, Leaves-bind)
