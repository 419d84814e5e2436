-- ===== src/Storage.antt =====
-- What a service method is: an action on the shared storage that returns or raises. What was
-- written before a raise stays written: the memory repositories change the storage at once, and each
-- writing method of the database repositories commits by itself, so that the rollback of
-- `transaction` (backend/app/infrastructure/transaction.py) finds nothing left to undo.
pub mod Rules
use bulq.Common.{ℕ, suc, Bool, true, false, Option, none, some, ◌∷◌}
use bulq.Error.{Result, ok, err, Error, bad_request, invalid_uuid_format, invalid_id_format}
use bulq.Model.{MemoryStorage, DomainEvent}

abbrev pub Action : Type 0 → Type 0
Action A = MemoryStorage → Result A × MemoryStorage

module _ {A : Type 0} where
  unfoldable pub pure : A → Action A
  pure a s = (ok a, s)

  unfoldable pub raise : Error → Action A
  raise e s = (err e, s)

  unfoldable pub gets : (MemoryStorage → A) → Action A
  gets f s = (ok (f s), s)

  unfoldable pub lift : Result A → Action A
  lift r s = (r, s)

  -- `if not x: raise …`
  unfoldable pub or_raise : Error → Option A → Action A
  or_raise e none s = (err e, s)
  or_raise e (some a) s = (ok a, s)

unfoldable pub raise_if : Bool → Error → Action (Unit {0})
raise_if true e s = (err e, s)
raise_if false e s = (ok tt, s)

unfoldable pub modify : (MemoryStorage → MemoryStorage) → Action (Unit {0})
modify f s = (ok tt, f s)

-- What follows a result: the rest of the method, or nothing after a raise.
abbrev pub resume : {A B : Type 0} → (A → Action B) → Result A → Action B
resume f (ok a) s = f a s
resume f (err e) s = (err e, s)

infixl 5 ◌>>=◌ ◌>>◌
unfoldable pub ◌>>=◌ : {A B : Type 0} → Action A → (A → Action B) → Action B
unfolding pure raise gets lift or_raise raise_if modify
◌>>=◌ m f s = let (r, s') = m s in resume f r s'

abbrev pub ◌>>◌ : {A B : Type 0} → Action A → Action B → Action B
m >> k = m >>= λ _. k

-- `event_bus.emit(event)`
unfoldable pub emit : DomainEvent → Action (Unit {0})
emit e s = (ok tt, record s { events = e ∷ s.events })

-- `uuid4()`
unfoldable pub draw_uuid4 : Action ℕ
draw_uuid4 s = (ok (s.uuid4 0), record s { uuid4 = λ n. s.uuid4 (suc n) })

-- `validate_uuid(id_str, …)`: a text that `UUID` parses is the number of its id, and `none` is one
-- that it refuses.
abbrev pub IdText : Type 0
IdText = Option ℕ

abbrev pub validate_uuid : IdText → Action ℕ
validate_uuid id_str = or_raise (bad_request invalid_uuid_format) id_str

-- `try: UUID(id_str) … except ValueError: raise BadRequestError(code=INVALID_ID_FORMAT, …)`
abbrev pub parse_uuid : IdText → Action ℕ
parse_uuid id_str = or_raise (bad_request invalid_id_format) id_str
