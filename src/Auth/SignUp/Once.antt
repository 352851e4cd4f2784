-- ===== src/Auth/SignUp/Once.antt =====
-- What the sign-up page sends, and how often.
use project_hawkeye.Base.{
  ℕ, String, Bool, true, false, List, [], ◌∷◌, ◌++◌, none, is_some, every, ◌≡◌, refl, sym, ap, ◌∙◌,
  arith, leb, Bool-cases, inl, inr,
}
use project_hawkeye.Base.Chars.{text_length}
use project_hawkeye.Base.Strings.{is_filled}
use project_hawkeye.Auth.Forms.{password_error}
use project_hawkeye.Auth.Login as Login
use project_hawkeye.Auth.SignUp.{
  Registration, Wait, registering, signing_in, Page, can_submit, on_submit, Reply, accepted,
  refused, threw, Event, name_typed, email_typed, password_typed, confirm_typed, submitted,
  reply_came, sign_in_ended, replied, signed_in, reply_to, end_sign_in, step, run,
}

-- One call waits at most, and the button is off meanwhile.
abbrev pub is_once : List Wait → Bool → Bool
is_once [] submitting = true
is_once (w ∷ []) submitting = submitting
is_once (w ∷ v ∷ rest) submitting = false

abbrev pub is_single : Page → Bool
is_single p = is_once p.waits p.submitting

is_once_last :
    (ws : List Wait) (w : Wait) → is_once ws false ≡ true → is_once (ws ++ w ∷ []) true ≡ true
is_once_last [] w h = refl
is_once_last (v ∷ []) w h = cc
is_once_last (v ∷ u ∷ rest) w h = cc

on_submit-is_single : (p : Page) → is_single p ≡ true → is_single (on_submit p) ≡ true
unfolding on_submit
on_submit-is_single p h = elim (Bool-cases (can_submit p)) [
  | inl can ↦
      let free : p.submitting ≡ false = unfold can_submit in ground arith in
      rw can (is_once_last p.waits _ (sym (ap (is_once p.waits) free) ∙ h))
  | inr not_now ↦ rw not_now h
]

-- Taking the first call off
is_once-rest :
    (w : Wait) (ws : List Wait) (s t : Bool) → is_once (w ∷ ws) s ≡ true → is_once ws t ≡ true
is_once-rest w [] s t h = refl
is_once-rest w (v ∷ ws) s t h = cc

is_once-next :
    (w v : Wait) (ws : List Wait) (s : Bool) → is_once (w ∷ ws) s ≡ true → is_once (v ∷ ws) s ≡ true
is_once-next w v [] s h = h
is_once-next w v (u ∷ ws) s h = cc

replied-is_single :
    (reply : Reply) (body : Registration) (rest : List Wait) (p : Page)
    → is_once (registering body ∷ rest) p.submitting ≡ true
    → is_single (replied reply body rest p) ≡ true
unfolding replied
replied-is_single accepted body rest p h =
    is_once-next (registering body) (signing_in body.email body.password) rest p.submitting h
replied-is_single (refused detail) body rest p h =
    is_once-rest (registering body) rest p.submitting false h
replied-is_single threw body rest p h = is_once-rest (registering body) rest p.submitting false h

signed_in-is_single :
    (thrown : Bool) (w : Wait) (rest : List Wait) (p : Page)
    → is_once (w ∷ rest) p.submitting ≡ true
    → is_single (signed_in thrown rest p) ≡ true
unfolding signed_in
signed_in-is_single true w rest p h = is_once-rest w rest p.submitting false h
signed_in-is_single false w rest p h = is_once-rest w rest p.submitting p.submitting h

-- A registration that the login page takes: its form can be sent with the e-mail and the password.
unfoldable pub is_login : Registration → Bool
unfolding Login.can_submit
is_login r = Login.can_submit (record {
  email = r.email;
  password = r.password;
  submitting = false;
  login_error = none;
  location = none;
})

longer : (n : ℕ) → leb 8 n ≡ true → leb 6 n ≡ true
longer n h = ground arith

password_taken :
    (least : String) (p : String) (m : String)
    → is_filled p ≡ true
    → is_some (password_error 8 m p) ≡ false
    → is_some (password_error 6 least p) ≡ false
unfolding password_error
password_taken least p m filled h = ground (arith, longer (text_length p))

is_login_of :
    (p : Page)
    → can_submit p ≡ true
    → is_login (record { email = p.email; password = p.password; name = p.name }) ≡ true
unfolding is_login Login.can_submit can_submit
is_login_of p h = ground (arith, password_taken _ p.password _)

every_last :
    (f : Registration → Bool) (rs : List Registration) (r : Registration)
    → every f rs ≡ true
    → f r ≡ true
    → every f (rs ++ r ∷ []) ≡ true
every_last f [] r h e = ground arith
every_last f (x ∷ rs) r h e = ground (arith, every_last f rs r)

-- What holds of the page all the time
abbrev pub IsSound : Page → Type 0
IsSound p = (is_single p ≡ true) × (every is_login p.sent ≡ true)

on_submit-sent :
    (p : Page) → every is_login p.sent ≡ true → every is_login (on_submit p).sent ≡ true
unfolding on_submit
on_submit-sent p h = elim (Bool-cases (can_submit p)) [
  | inl can ↦ rw can (every_last is_login p.sent _ h (is_login_of p can))
  | inr not_now ↦ rw not_now h
]

-- An end of a call sends nothing.
sent-replied :
    (reply : Reply) (body : Registration) (rest : List Wait) (p : Page)
    → (replied reply body rest p).sent ≡ p.sent
unfolding replied
sent-replied accepted body rest p = refl
sent-replied (refused detail) body rest p = refl
sent-replied threw body rest p = refl

sent-signed_in :
    (thrown : Bool) (rest : List Wait) (p : Page) → (signed_in thrown rest p).sent ≡ p.sent
unfolding signed_in
sent-signed_in true rest p = refl
sent-signed_in false rest p = refl

reply_to-IsSound :
    (reply : Reply) (ws : List Wait) (p : Page)
    → p.waits ≡ ws
    → IsSound p
    → IsSound (reply_to reply ws p)
unfolding reply_to replied
reply_to-IsSound reply [] p at_ws sound = sound
reply_to-IsSound reply (signing_in email password ∷ rest) p at_ws sound = sound
reply_to-IsSound reply (registering body ∷ rest) p at_ws (single, sent) =
    let now = sym (ap (λ ws. is_once ws p.submitting) at_ws) ∙ single in
    (
      replied-is_single reply body rest p now,
      ap (every is_login) (sent-replied reply body rest p) ∙ sent,
    )

end_sign_in-IsSound :
    (thrown : Bool) (ws : List Wait) (p : Page)
    → p.waits ≡ ws
    → IsSound p
    → IsSound (end_sign_in thrown ws p)
unfolding end_sign_in signed_in
end_sign_in-IsSound thrown [] p at_ws sound = sound
end_sign_in-IsSound thrown (registering body ∷ rest) p at_ws sound = sound
end_sign_in-IsSound thrown (signing_in email password ∷ rest) p at_ws (single, sent) =
    let now = sym (ap (λ ws. is_once ws p.submitting) at_ws) ∙ single in
    (
      signed_in-is_single thrown (signing_in email password) rest p now,
      ap (every is_login) (sent-signed_in thrown rest p) ∙ sent,
    )

step-IsSound : (e : Event) (p : Page) → IsSound p → IsSound (step e p)
unfolding step
step-IsSound (name_typed s) p sound = sound
step-IsSound (email_typed s) p sound = sound
step-IsSound (password_typed s) p sound = sound
step-IsSound (confirm_typed s) p sound = sound
step-IsSound submitted p (single, sent) = (on_submit-is_single p single, on_submit-sent p sent)
step-IsSound (reply_came reply) p sound = reply_to-IsSound reply p.waits p refl sound
step-IsSound (sign_in_ended thrown) p sound = end_sign_in-IsSound thrown p.waits p refl sound

-- Whatever is typed, clicked and answered, in any order: one call of `onSubmit` at most waits, with
-- the button off meanwhile, and the login form takes the e-mail and the password of each
-- registration that was sent, if that holds at the start.
pub run-IsSound : (events : List Event) (p : Page) → IsSound p → IsSound (run events p)
unfolding run
run-IsSound [] p sound = sound
run-IsSound (e ∷ rest) p sound = run-IsSound rest (step e p) (step-IsSound e p sound)
