-- ===== src/GroupService/Yields.antt =====
-- How the effect of an action on the roles is put together from its steps.
use bulq.Common.{
  ℕ, ◌≡◌, refl, sym, ap, subst, Bool, true, false, some, contains, is_some, arith, inl, inr, ◌⊎◌,
  ◌≢◌,
}
use bulq.Error.{Result, ok, err}
use bulq.Table.{get}
use bulq.Model.{MemoryStorage}
use bulq.Storage.{Action, pure, gets, modify, resume, ◌>>=◌}
use bulq.Storage.Rules.{Reads, Leaves}
use bulq.Repo.Groups.{
  members_key, member_ids_of, is_listed, can_be_listed, write_if, add_group_member,
  remove_group_member, set_group_member_admin,
}
use bulq.GroupService.Roles.{
  Part, part_of, roles_in, Step, kept, joined, removed, promoted, left_group, IsSound,
}
use bulq.GroupService.Parts.{
  roles-added, added-IsSound, roles-dropped, dropped-IsSound, roles-ranked, ranked-IsSound,
}

-- From the storage `s`, a request of the user `u` has taken one step on the roles to `t`, and the part
-- of the storage that keeps them is sound.
pub record Yields (u : ℕ) (s t : MemoryStorage) : Type 0 where
  pub step : Step u (roles_in (part_of s)) (roles_in (part_of t))
  pub sound : IsSound (part_of t)

module _ {u : ℕ} {s : MemoryStorage} where
  pub Yields-part :
      (t : MemoryStorage) {q : Part}
      → part_of t ≡ q
      → Step u (roles_in (part_of s)) (roles_in q)
      → IsSound q
      → Yields u s t
  Yields-part t e step sound = record {
    step = subst (λ p. Step u (roles_in (part_of s)) (roles_in p)) (sym e) step;
    sound = subst IsSound (sym e) sound;
  }

  Yields-same : {t t' : MemoryStorage} → part_of t' ≡ part_of t → Yields u s t → Yields u s t'
  Yields-same {t} {t'} e y = Yields-part t' e y.step y.sound

  pub Yields-Leaves :
      {A : Type 0} (m : Action A) → IsSound (part_of s) → Leaves part_of m → Yields u s (m s).1
  Yields-Leaves m sound h = Yields-part (m s).1 (h.at s) (kept λ g v. refl) sound

  pub Yields-bind :
      {A B : Type 0} (m : Action A) (f : A → Action B)
      → IsSound (part_of s)
      → Reads m
      → ((a : A) → (m s).0 ≡ ok a → Yields u s (f a s).1)
      → Yields u s ((m >>= f) s).1
  unfolding ◌>>=◌
  Yields-bind {A} {B} m f sound h k = go (m s).0 (m s).1 refl (h.at s)
    where
      go : (r : Result A) (t : MemoryStorage) → (m s).0 ≡ r → t ≡ s → Yields u s (resume f r t).1
      go (ok a) t e same = Yields-same (ap (λ v. part_of (f a v).1) same) (k a e)
      go (err x) t e same = Yields-part t (ap part_of same) (kept λ g v. refl) sound

  pub Yields-after :
      {A B : Type 0} (m : Action A) (f : A → Action B)
      → Yields u s (m s).1
      → ((a : A) → Leaves part_of (f a))
      → Yields u s ((m >>= f) s).1
  unfolding ◌>>=◌
  Yields-after {A} {B} m f y h = Yields-same (go (m s).0 (m s).1) y
    where
      go : (r : Result A) (t : MemoryStorage) → part_of (resume f r t).1 ≡ part_of t
      go (ok a) t = (h a).at t
      go (err e) t = refl

module _ (u : ℕ) (s : MemoryStorage) (sound : IsSound (part_of s)) where
  -- A write under a test.
  Yields-write_if :
      (b : Bool) (f : MemoryStorage → MemoryStorage)
      → (b ≡ true → Yields u s (f s))
      → Yields u s (write_if b f s).1
  unfolding write_if modify pure ◌>>=◌
  Yields-write_if true f h = h refl
  Yields-write_if false f h = record { step = kept λ g v. refl; sound = sound }

  listed_role :
      (g v : ℕ) (b : Bool)
      → is_listed g v s ≡ true
      → s.group_admin_status g v ≡ b
      → roles_in (part_of s) g v ≡ some b
  listed_role g v b h k = rw (h, k) refl

  pub Yields-join : (g : ℕ) → Yields u s (add_group_member g u false s).1
  unfolding add_group_member gets ◌>>=◌
  Yields-join g = Yields-write_if (can_be_listed g u s) _ λ can.
      let there : is_some (get members_key g s.group_memberships) ≡ true = ground arith in
      let absent : contains u (member_ids_of g s.group_memberships) ≡ false = ground arith in
      record {
        step = joined g (rw absent refl) (roles-added g u (part_of s) sound false there absent);
        sound = added-IsSound g u (part_of s) sound false there absent;
      }

  pub Yields-remove :
      (g m : ℕ)
      → s.group_admin_status g u ≡ true
      → s.group_admin_status g m ≡ false
      → Yields u s (remove_group_member g m s).1
  unfolding remove_group_member gets ◌>>=◌
  Yields-remove g m admin other = Yields-write_if (is_listed g m s) _ λ listed. record {
    step =
        removed g m (listed_role g u true (sound.listed_admins g u admin) admin)
          (listed_role g m false listed other) (roles-dropped g m (part_of s) sound);
    sound = dropped-IsSound g m (part_of s) sound;
  }

  pub Yields-promote :
      (g m : ℕ)
      → s.group_admin_status g u ≡ true
      → s.group_admin_status g m ≡ false
      → Yields u s (set_group_member_admin g m true s).1
  unfolding set_group_member_admin gets ◌>>=◌
  Yields-promote g m admin other = Yields-write_if (is_listed g m s) _ λ listed. record {
    step =
        promoted g m (listed_role g u true (sound.listed_admins g u admin) admin)
          (listed_role g m false listed other) (roles-ranked g m (part_of s) sound listed);
    sound = ranked-IsSound g m (part_of s) sound listed;
  }

  pub Yields-leave :
      (g : ℕ)
      → (s.group_admin_status g u ≡ false) ⊎ ((m : ℕ) × (m ≢ u) × (s.group_admin_status g m ≡ true))
      → Yields u s (remove_group_member g u s).1
  unfolding remove_group_member gets ◌>>=◌
  Yields-leave g why = Yields-write_if (is_listed g u s) _ λ listed. record {
    step =
        left_group g
          (elim why [
            | inl plain ↦ inl (listed_role g u false listed plain)
            | inr (m, ne, admin) ↦
                inr (m, ne, listed_role g m true (sound.listed_admins g m admin) admin)
          ])
          (roles-dropped g u (part_of s) sound);
    sound = dropped-IsSound g u (part_of s) sound;
  }
