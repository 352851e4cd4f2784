-- ===== src/Account.antt =====
-- The account and billing pages of a user, account/page.tsx and billing/page.tsx under
-- Frontend/hawkeye-web/src/app/app/(global-hub)/. The session's names and the answers of the server
-- are arguments; an answer that is `none` stands for a call that throws.
pub mod Meters
use Prim.Native.Char.{Char}
use Prim.Native.String
use text.Mathlib.Text.{starts_with}
use project_hawkeye.Base.{
  ℕ, String, Bool, true, false, not, List, [], ◌∷◌, Option, none, some, if◌then◌else◌, or_else,
  str_eq, filter, ◌+◌, ◌*◌, ◌/◌, min, ◌==◌, ◌||◌,
}
use project_hawkeye.Base.Chars.{split, slice_from}
use project_hawkeye.Base.Strings.{is_filled, truthy, ◌+++◌, slice}

pub record Member : Type 0 where
  pub id : String
  pub email : String
  pub name : String
  pub avatar_url : Option String
  pub role : String
  pub joined_at : String

pub record Profile : Type 0 where
  pub full_name : String
  pub email : String

-- The state of the account page
pub record Page : Type 0 where
  pub profile : Profile
  pub invite_open : Bool
  pub invite_email : String
  pub invite_role : String
  pub members : List Member

-- The first value of the profile, with the name and the e-mail of the session at the first render
abbrev pub profile_of : (name email : Option String) → Profile
profile_of name email = record { full_name = or_else name ""; email = or_else email "" }

-- The effect that takes the profile from the session, on both pages
unfoldable pub synced : (name email : Option String) → Profile → Profile
synced name email p = record {
  full_name = if truthy name then or_else name "" else p.full_name;
  email = if truthy email then or_else email "" else p.email;
}

unfoldable pub members_loaded : Option (List Member) → Page → Page
members_loaded none p = p
members_loaded (some members) p = record p { members = members }

-- The body of an invitation
pub record Invitation : Type 0 where
  pub email : String
  pub role : String

-- `handleInvite` up to its `await`, and the rest of it
unfoldable pub handle_invite : Page → Option Invitation
handle_invite p =
    if is_filled p.invite_email
    then some (record { email = p.invite_email; role = p.invite_role })
    else none

unfoldable pub invited : (ok : Bool) → Page → Page
invited ok p = if ok then record p { invite_email = ""; invite_open = false } else p

-- `handleRemove`
unfoldable pub handle_remove : String → (ok : Bool) → Page → Page
handle_remove user ok p =
    if ok then record p { members = filter (λ m. not (str_eq m.id user)) p.members } else p

-- The first letters of at most two words, joined; an empty word has none.
abbrev pub first_letters : List String → String
first_letters [] = ""
first_letters (x ∷ []) = slice 1 x
first_letters (x ∷ y ∷ rest) = slice 1 x +++ slice 1 y

-- `avatarFallback`
unfoldable pub avatar_fallback : (to_upper_case : String → String) → String → String
unfolding split slice
avatar_fallback to_upper_case full_name =
    to_upper_case (first_letters (split b' ' (if is_filled full_name then full_name else "User")))

pub data BillingTab : Type 0 where
  profile_tab : BillingTab
  billing : BillingTab
  security : BillingTab
  notifications : BillingTab

-- `raw.replace(/^#/, "")`
unfoldable pub without_hash : String → String
unfolding slice_from
without_hash raw = if starts_with raw "#" then slice_from 1 raw else raw

unfoldable pub tab_from_hash : String → Option BillingTab
unfolding without_hash
tab_from_hash raw =
    let h = without_hash raw in
    if str_eq h "usage" || str_eq h "subscription"
    then some billing
    else if str_eq h "profile"
    then some profile_tab
    else if str_eq h "billing-security"
    then some security
    else if str_eq h "billing-notifications"
    then some notifications
    else none

-- `used` and `limit` are in tenths of the unit.
pub record UsageMeter : Type 0 where
  pub id : String
  pub label : String
  pub description : String
  pub used : ℕ
  pub limit : ℕ
  pub unit : String

-- `Math.round(used / limit * 100)` with a limit that is not 0
abbrev pub rounded : (used limit : ℕ) → ℕ
rounded used limit = (used * 200 + limit) / (2 * limit)

-- `meterPct`; `none` is NaN, a use of 0 of 0.
unfoldable pub meter_pct : UsageMeter → Option ℕ
meter_pct m =
    if m.limit == 0
    then (if m.used == 0 then none else some 100)
    else some (min 100 (rounded m.used m.limit))

-- `runsPct`
unfoldable pub runs_pct : List UsageMeter → Option ℕ
unfolding meter_pct
runs_pct [] = some 0
runs_pct (primary ∷ rest) = meter_pct primary

pub record Subscription : Type 0 where
  pub plan : String
  pub price_monthly : ℕ
  pub next_billing_date : Option String

pub record Usage : Type 0 where
  pub meters : List UsageMeter
  pub period : String
  pub subscription : Subscription
  pub cost : ℕ

-- The state of the billing page
pub record BillingPage : Type 0 where
  pub tab : BillingTab
  pub profile : Profile
  pub usage : Usage
  pub portal_loading : Bool
  pub location : Option String

abbrev pub billing_opened : (name email : Option String) → BillingPage
billing_opened name email = record {
  tab = billing;
  profile = profile_of name email;
  usage = record {
    meters = [];
    period = "Current billing period";
    subscription = record { plan = "Pro"; price_monthly = 99; next_billing_date = none };
    cost = 0;
  };
  portal_loading = false;
  location = none;
}

unfoldable pub usage_loaded : Option Usage → BillingPage → BillingPage
usage_loaded none p = p
usage_loaded (some usage) p = record p { usage = usage }

-- `syncTabFromHash`
unfoldable pub tab_synced : String → BillingPage → BillingPage
unfolding tab_from_hash
tab_synced hash p = record p { tab = or_else (tab_from_hash hash) p.tab }

-- `handleManageBilling` up to its `await`, and the rest: the portal's answer is a stub or an address.
unfoldable pub handle_manage_billing : BillingPage → BillingPage
handle_manage_billing p = record p { portal_loading = true }

pub data Portal : Type 0 where
  stub : Portal
  at_url : String → Portal

unfoldable pub portal_answered : Option Portal → BillingPage → BillingPage
portal_answered none p = record p { portal_loading = false }
portal_answered (some stub) p = record p { portal_loading = false }
portal_answered (some (at_url url)) p = record p { portal_loading = false; location = some url }
