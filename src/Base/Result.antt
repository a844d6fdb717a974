-- ===== src/Base/Result.antt =====
-- What a call of the C++ core gives: a value, a thrown `std::runtime_error`, or undefined behaviour.
use mathlib.Core.Path.{◌≡◌, refl}
use mathlib.Core.Bool.{Bool, true, false}

-- One constructor for each text that the core throws. `open_ssl` stands for the texts that
-- `ThrowOpenSSLError` builds, one for each call of the library that can fail, and
-- `assertion_failed` for the exception of the test harness. The last row is of the Go daemon: the
-- panics of an index and of a length out of range, a `C.CString` that gets no memory, and
-- `log.Fatal`.
pub data Error : Type 0 where
  truncated_length_prefix truncated_payload truncated_file_size truncated_total_chunks : Error
  truncated_chunk_index header_too_short version_mismatch : Error
  bad_nonce_size bad_tag_size authentication_failed open_ssl cannot_open_for_hashing : Error
  file_not_found cannot_open_file cannot_create_output chunk_index_out_of_range : Error
  cannot_open_output assertion_failed bad_function_call : Error
  index_out_of_range length_out_of_range malloc_failed log_fatal : Error

-- `fault` is undefined behaviour, such as a read outside a vector.
pub data Result {ℓ} (A : Type ℓ) : Type ℓ where
  ok : A → Result A
  err : Error → Result A
  fault : Result A

-- `if (bad) throw std::runtime_error(...)`
abbrev pub throw_if : Bool → Error → Result (Unit {0})
throw_if bad e = elim bad [ true ↦ err e | false ↦ ok tt ]

infixl 5 ◌>>=◌ ◌>>◌
abbrev pub ◌>>=◌ {ℓ κ} : {A : Type ℓ} {B : Type κ} → Result A → (A → Result B) → Result B
fault >>= next = fault
err thrown >>= next = err thrown
ok value >>= next = next value

abbrev pub ◌>>◌ {ℓ} : {B : Type ℓ} → Result (Unit {0}) → Result B → Result B
first >> second = first >>= λ _. second

pub >>=_assoc {ℓ κ μ} :
    {A : Type ℓ} {B : Type κ} {C : Type μ} (m : Result A) (f : A → Result B) (g : B → Result C)
    → ((m >>= f) >>= g) ≡ (m >>= λ a. f a >>= g)
>>=_assoc (ok a) f g = refl
>>=_assoc (err e) f g = refl
>>=_assoc fault f g = refl
