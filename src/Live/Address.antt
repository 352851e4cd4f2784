-- ===== src/Live/Address.antt =====
-- Where the live page goes when a run is selected.
use text.Mathlib.TextLemmas.{nil-append, cons-append}
use project_hawkeye.Base.{◌+◌, String, ◌≡◌, ◌≢◌, ap, arith}
use project_hawkeye.Base.Chars.{text_length}
use project_hawkeye.Base.Strings.{◌+++◌}
use project_hawkeye.Live.{select_run}

text_length-append : (s t : String) → text_length (s +++ t) ≡ text_length s + text_length t
unfolding text_length
text_length-append String.[] t = rw nil-append (omega arith)
text_length-append (String.◌∷◌ c s) t = rw cons-append (omega (arith, text_length-append s t))

-- The selection of a run leads to no project's live page.
pub select_run-ne-live_page :
    (project run : String) → (select_run run).0 ≢ "/app/" +++ (project +++ "/runs/live")
unfolding select_run text_length
select_run-ne-live_page project run same = absurd (
    omega (
      arith,
      ap text_length same,
      text_length-append "/app/" (project +++ "/runs/live"),
      text_length-append project "/runs/live",
    ))
