-- ===== src/Drivers/Free.antt =====
-- Which username a driver gets.
use Prim.Native.String.{◌++◌}
use authentication_service.Prelude.{
  ℕ, ◌+◌, String, not, List, [], ◌∷◌, Option, ◌≡◌, refl, arith, Bool-cases, inl, inr,
}
use authentication_service.Auth.Store.{User}
use authentication_service.Auth.Sessions.{first}
use authentication_service.Users.Registration.{Tenant}
use authentication_service.Drivers.Names.{
  two_digits, is_used, next_free, base_username, derive_username,
}

-- The base with numbers, from one on.
abbrev pub numbered : String → ℕ → ℕ → List String
numbered base ℕ.zero n = []
numbered base (ℕ.suc left) n = (base ++ two_digits n) ∷ numbered base left (n + 1)

next_free-first :
    (fold : String → String) (users : List User) (base : String) (left n : ℕ)
    → next_free fold users base left n
      ≡ first (λ c. not (is_used fold users c)) (numbered base left n)
unfolding next_free first
next_free-first fold users base ℕ.zero n = refl
next_free-first fold users base (ℕ.suc left) n =
    ground (arith, next_free-first fold users base left (n + 1))

-- The username that is derived is the first that no account has among the base, which is the slug of
-- the first name and the initials of the company, and the base with 01, 02 and so on to 99; where all
-- hundred are taken, there is none.
pub derive_username-first :
    (lower fold : String → String) (users : List User) (company : Option Tenant) (name : String)
    → derive_username lower fold users company name
      ≡ first
          (λ c. not (is_used fold users c))
          (base_username lower company name ∷ numbered (base_username lower company name) 99 1)
unfolding derive_username first
derive_username-first lower fold users company name =
    elim (Bool-cases (is_used fold users (base_username lower company name))) [
      | inl taken ↦ rw taken (next_free-first fold users (base_username lower company name) 99 1)
      | inr free ↦ rw free refl
    ]
