-- ===== src/Core/Shutdown/Rounds.antt =====
-- How sig_handler of plugins/src/core/core.c ends.
use bcirc.Base.{ℕ, zero, suc, Bytes, List, [], ◌∷◌, some, ◌≡◌, ◌≢◌, refl, sym, ap, ◌∙◌, ℤ, pos}
use bcirc.PluginHandler.{Params}
use bcirc.PluginHandler.Execute.{Run, done, fault, spent}
use bcirc.Server.{Bot, Bots, Sockets, then_run, server_disconnect, server_intentional_dc}
use bcirc.Server.Pool.{remove_from_serverpool, free_server}
use bcirc.IrcCmds.{quit}
use bcirc.Core.Shutdown.{first_server, kill_text, leave_server, sig_handler}

-- The run does not return.
abbrev pub IsLost : Run Bot → Type 0
IsLost r = (res : ℤ) (h : Bots) → r ≢ done res h

then_run-IsLost :
    (r : Run Bot) (k : ℤ → Bots → Run Bot)
    → ((res : ℤ) (h : Bots) → IsLost (k res h))
    → IsLost (then_run r k)
then_run-IsLost (done res h) k lost = lost res h
then_run-IsLost fault k lost = λ res h e. cc
then_run-IsLost spent k lost = λ res h e. cc

first_of-IsLost :
    (l : List ℕ) (k : ℕ → Run Bot)
    → ((srv : ℕ) (rest : List ℕ) → l ≡ srv ∷ rest → IsLost (k srv))
    → IsLost (elim l as (λ _. Run Bot) [ [] ↦ fault | srv ∷ rest ↦ k srv ])
first_of-IsLost [] k lost = λ res h' e. cc
first_of-IsLost (srv ∷ rest) k lost = lost srv rest refl

first_server-IsLost :
    (h : Bots) (k : ℕ → Run Bot)
    → ((srv : ℕ) (rest : List ℕ) → h.world.server_list ≡ srv ∷ rest → IsLost (k srv))
    → IsLost (first_server h k)
first_server-IsLost h k lost = first_of-IsLost h.world.server_list k lost

module _ (call : ℕ → Params → Bots → Run Bot) (net : Sockets) (room : ℕ → ℕ)
    (reprint : Bytes → Bytes → Bytes) where
  -- A round is lost where the next one is for every state with a server.
  leave_server-IsLost :
      (next : Bots → Run Bot) (h : Bots)
      → ((h3 : Bots) (srv : ℕ) (rest : List ℕ)
          → h3.world.server_list ≡ srv ∷ rest
          → IsLost (next h3))
      → IsLost (leave_server call net room reprint next h)
  unfolding free_server
  leave_server-IsLost next h lost = first_server-IsLost h _ λ srv rest here.
      then_run-IsLost (quit call net room reprint kill_text srv h) _ λ res h1.
        first_server-IsLost h1 _ λ srv1 rest1 here1.
          then_run-IsLost (server_disconnect call net srv1 server_intentional_dc h1) _ λ res' h2.
            first_server-IsLost h2 _ λ srv2 rest2 here2.
              first_server-IsLost (remove_from_serverpool (some srv2) h2).1 _ λ freed rest3 here3.
                lost (free_server (some freed) (remove_from_serverpool (some srv2) h2).1).1 freed
                  rest3 here3

  -- With a server in the pool, the handler never gets to its exit, whatever the callbacks do and
  -- however many rounds it makes.
  pub sig_handler-IsLost :
      (fuel : ℕ) (h : Bots) (srv : ℕ) (rest : List ℕ)
      → h.world.server_list ≡ srv ∷ rest
      → IsLost (sig_handler call net room reprint fuel h)
  unfolding sig_handler
  sig_handler-IsLost zero h srv rest present = λ res h' e. cc
  sig_handler-IsLost (suc fuel) h srv rest present = λ res h' e.
      leave_server-IsLost (sig_handler call net room reprint fuel) h
        (λ h3 srv3 rest3 here. sig_handler-IsLost fuel h3 srv3 rest3 here) res h'
        (sym (
            ap
              (λ (l : List ℕ). elim l as (λ _. Run Bot) [
                | [] ↦ done (pos 0) h
                | s ∷ ss ↦
                    leave_server call net room reprint (sig_handler call net room reprint fuel) h
              ])
              present)
          ∙ e)
