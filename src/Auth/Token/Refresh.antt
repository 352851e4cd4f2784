-- ===== src/Auth/Token/Refresh.antt =====
-- A sign-in and the refreshes after it.
use project_hawkeye.Base.{
  ℕ, ◌+◌, String, Bool, true, false, not, List, [], ◌∷◌, Option, none, some, or_else, any,
  if◌then◌else◌, ◌≡◌, refl, ap, ◌∙◌, arith, Bool-cases, inl, inr, eq_iff,
}
use project_hawkeye.Base.Strings.{truthy}
use project_hawkeye.Auth.Token.{
  Token, User, Account, Exchange, granted, refused, unreachable, needs_exchange, jwt,
  after_exchange, is_credentials,
}

abbrev pub Backend : Type 0
Backend = String → String → Exchange

-- A refresh is a call of `jwt` with no user and no account. These are the refreshes of a session,
-- with the answers that the backend would give at each; the number counts the calls made.
unfoldable pub refreshes : List Backend → Token → Token × ℕ
refreshes [] t = (t, 0)
refreshes (b ∷ rest) t =
    let (t', called) = jwt b none none t in
    let (last, calls) = refreshes rest t' in (last, (if called then 1 else 0) + calls)

-- Whether the backend grants an access token to this e-mail and name.
abbrev pub granting : Exchange → Bool
granting (granted a) = truthy a
granting refused = false
granting unreachable = false

-- The attempts up to the first that succeeds, that one included.
abbrev pub attempts : String → String → List Backend → ℕ
attempts email name [] = 0
attempts email name (b ∷ rest) =
    1 + (if granting (b email name) then 0 else attempts email name rest)

-- A token that needs no exchange is kept by every refresh, and the backend is not asked.
pub refreshes_of_settled :
    (bs : List Backend) (t : Token) → needs_exchange t ≡ false → refreshes bs t ≡ (t, 0)
unfolding refreshes jwt
refreshes_of_settled [] t h = refl
refreshes_of_settled (b ∷ rest) t h = ground (arith, refreshes_of_settled rest t)

jwt_of_needs_exchange :
    (b : Backend) (t : Token)
    → needs_exchange t ≡ true
    → jwt b none none t ≡ (after_exchange (b (or_else t.email "") (or_else t.name "")) t, true)
unfolding jwt
jwt_of_needs_exchange b t h = rw h

-- An exchange keeps the e-mail and the name, and settles the token exactly if it grants one.
record Exchanged (x : Exchange) (t t' : Token) : Type 0 where
  email : t'.email ≡ t.email
  name : t'.name ≡ t.name
  needs : needs_exchange t' ≡ not (granting x)
  truth : truthy t'.access_token ≡ granting x

after_exchange-Exchanged :
    (x : Exchange) (t : Token) → needs_exchange t ≡ true → Exchanged x t (after_exchange x t)
unfolding needs_exchange
after_exchange-Exchanged (granted a) t h = record {
  email = refl;
  name = refl;
  needs = ground arith;
  truth = refl;
}
after_exchange-Exchanged refused t h = record {
  email = refl;
  name = refl;
  needs = h;
  truth = ground arith;
}
after_exchange-Exchanged unreachable t h = record {
  email = refl;
  name = refl;
  needs = h;
  truth = ground arith;
}

abbrev Outcome : List Backend → Token → String → String → Type 0
Outcome bs t email name =
    ((refreshes bs t).1 ≡ attempts email name bs)
    × (truthy (refreshes bs t).0.access_token ≡ any (λ b. granting (b email name)) bs)

Outcome-cons :
    (b : Backend) (rest : List Backend) (t : Token) {email name : String}
    → or_else t.email "" ≡ email
    → or_else t.name "" ≡ name
    → needs_exchange t ≡ true
    → ((t' : Token)
        → or_else t'.email "" ≡ email
        → or_else t'.name "" ≡ name
        → needs_exchange t' ≡ true
        → Outcome rest t' email name)
    → Outcome (b ∷ rest) t email name
unfolding refreshes
Outcome-cons b rest t {email} {name} e n h later =
    let d = after_exchange-Exchanged (b email name) t h in
    rw (jwt_of_needs_exchange b t h, e, n)
      (elim (Bool-cases (granting (b email name))) [
        | inl g ↦
            rw (refreshes_of_settled rest _ (d.needs ∙ ap not g), g) (omega arith, d.truth ∙ g)
        | inr g ↦
            let (calls, truth) =
              later _ (ap (λ o. or_else o "") d.email ∙ e) (ap (λ o. or_else o "") d.name ∙ n)
                (d.needs ∙ ap not g) in
            rw g (ap (λ k. 1 + k) calls, truth)
      ])

outcome :
    (bs : List Backend) (t : Token) {email name : String}
    → or_else t.email "" ≡ email
    → or_else t.name "" ≡ name
    → needs_exchange t ≡ true
    → Outcome bs t email name
unfolding refreshes
outcome [] t e n h = (refl, unfold needs_exchange in ground arith)
outcome (b ∷ rest) t e n h = Outcome-cons b rest t e n h (λ t' e' n' h'. outcome rest t' e' n' h')

-- A token with an e-mail and without access token, of a sign-in other than by credentials, asks at
-- each refresh until the backend grants an access token, and then no more; it has an access token at
-- the end exactly if one was granted.
pub refreshes_lem :
    (bs : List Backend) (t : Token)
    → is_credentials t.provider ≡ false
    → truthy t.email ≡ true
    → truthy t.access_token ≡ false
    → ((refreshes bs t).1 ≡ attempts (or_else t.email "") (or_else t.name "") bs)
      × (truthy (refreshes bs t).0.access_token
          ≡ any (λ b. granting (b (or_else t.email "") (or_else t.name ""))) bs)
refreshes_lem bs t other email no_token =
    outcome bs t refl refl (unfold needs_exchange in ground arith)

-- Whoever signs in and however often, a token that has an access token keeps one, and `jwt` does not
-- ask the backend for it.
pub jwt_of_access_token :
    (b : Backend) (user : Option User) (account : Option Account) (t : Token)
    → truthy t.access_token ≡ true
    → (truthy (jwt b user account t).0.access_token ≡ true) × ((jwt b user account t).1 ≡ false)
unfolding jwt
jwt_of_access_token b none none t h = ground arith
jwt_of_access_token b none (some a) t h = ground arith
jwt_of_access_token b (some u) none t h = ground arith
jwt_of_access_token b (some u) (some a) t h = ground arith

-- A sign-in with credentials never asks the backend for an exchange, and its access token is the one
-- of `authorize` if that gave one.
pub jwt_of_credentials :
    (b : Backend) (user : User) (a : Account) (t : Token)
    → a.provider ≡ "credentials"
    → jwt b (some user) (some a) t ≡ (
      record t {
        access_token = if truthy user.access_token then user.access_token else t.access_token;
        provider = some "credentials";
      },
      false,
    )
unfolding jwt
jwt_of_credentials b user a t h = ground (arith, eq_iff a.provider "credentials")
