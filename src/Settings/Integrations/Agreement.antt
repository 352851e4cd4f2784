-- ===== src/Settings/Integrations/Agreement.antt =====
-- The integrations that the page lists, against those of the server, Backend/api/routes/integrations.py.
use project_hawkeye.Base.{
  ℕ, String, Bool, false, List, [], ◌∷◌, ◌++◌, any, if◌then◌else◌, str_eq, ◌≡◌, refl,
}
use project_hawkeye.Client.Session.{is_ok}
use project_hawkeye.Settings.Integrations.{
  Integration, Page, Reply, rejected, replied, without, delete_integration, slack_saved,
  git_hub_saved,
}

-- `create_github_integration` and `create_slack_integration`, of the record that is made
unfoldable pub create : Integration → List Integration → List Integration × Reply Integration
create made store = (store ++ made ∷ [], replied 201 made)

abbrev pub has : String → List Integration → Bool
has id = any (λ i. str_eq i.id id)

-- `delete_integration` of the server, which answers 404 where there is nothing to delete
unfoldable pub remove : String → List Integration → List Integration × Reply (Unit {0})
remove id store =
    if has id store then (without id store, replied 200 tt) else (store, replied 404 tt)

-- What becomes of a request on its way: it is answered by the server's route; it fails with a status
-- before the route is reached, or does not arrive; or it arrives and the answer is lost.
pub data Delivery (T : Type 0) : Type 0 where
  answered : Delivery T
  failed : (status : ℕ) → T → Delivery T
  lost : Delivery T
  answer_lost : Delivery T

-- The server's records after a request, and what `fetch` gives the page
unfoldable pub deliver :
    {T : Type 0}
    → Delivery T
    → List Integration
    → List Integration × Reply T
    → List Integration × Reply T
deliver answered store handled = handled
deliver (failed status json) store handled = (store, replied status json)
deliver lost store handled = (store, rejected)
deliver answer_lost store handled = (handled.0, rejected)

pub data Exchange : Type 0 where
  removal : (id : String) → Delivery (Unit {0}) → Exchange
  slack : (made : Integration) → Delivery Integration → Exchange
  git_hub : (made : Integration) → Delivery Integration → Exchange

-- A request of the page, with the server's records
unfoldable pub exchange : Exchange → List Integration × Page → List Integration × Page
unfolding create remove deliver delete_integration slack_saved git_hub_saved
exchange (removal id way) (store, p) =
    let (after, reply) = deliver way store (remove id store) in
    (after, (delete_integration id reply p).0)
exchange (slack made way) (store, p) =
    let (after, reply) = deliver way store (create made store) in (after, (slack_saved reply p).0)
exchange (git_hub made way) (store, p) =
    let (after, reply) = deliver way store (create made store) in (after, (git_hub_saved reply p).0)

unfoldable pub exchanges : List Exchange → List Integration × Page → List Integration × Page
unfolding exchange
exchanges [] w = w
exchanges (e ∷ rest) w = exchanges rest (exchange e w)

-- No answer is lost, a request that fails is not ok, and no removal fails.
abbrev pub IsUsual : {T : Type 0} → Delivery T → Type 0
IsUsual answered = Unit
IsUsual (failed status json) = is_ok status ≡ false
IsUsual lost = Unit
IsUsual answer_lost = ⊥

abbrev pub AreUsual : List Exchange → Type 0
AreUsual [] = Unit
AreUsual (removal id answered ∷ rest) = AreUsual rest
AreUsual (removal id lost ∷ rest) = AreUsual rest
AreUsual (removal id (failed status json) ∷ rest) = ⊥
AreUsual (removal id answer_lost ∷ rest) = ⊥
AreUsual (slack made way ∷ rest) = IsUsual way × AreUsual rest
AreUsual (git_hub made way ∷ rest) = IsUsual way × AreUsual rest

abbrev pub Agrees : List Integration × Page → Type 0
Agrees w = w.1.integrations ≡ w.0

-- A removal that fails is shown as done: the page says so and lists the integration no more, which the
-- server keeps.
pub delete_integration_of_refusal :
    (id : String) (status : ℕ) (store : List Integration) (p : Page)
    → let (after, q) = exchange (removal id (failed status tt)) (store, p) in
      (after ≡ store) × (q.integrations ≡ without id p.integrations)
unfolding exchange deliver delete_integration
delete_integration_of_refusal id status store p = (refl, refl)
