-- ===== src/Core/Tests.antt =====
-- The core plugin at a concrete state.
use bcirc.Base.{ℕ, Bytes, refl, [], ◌∷◌}
use bcirc.Server.Examples.{silent_call, short_net, two_servers}
use bcirc.Core.Shutdown.{sig_handler}
use bcirc.Core.Shutdown.Rounds.{IsLost, sig_handler-IsLost}

abbrev exactly : ℕ → ℕ
exactly n = n

abbrev left_alone : Bytes → Bytes → Bytes
left_alone text x = text

sig_handler-IsLost_example :
    IsLost (sig_handler silent_call short_net exactly left_alone 5 two_servers)
sig_handler-IsLost_example =
    sig_handler-IsLost silent_call short_net exactly left_alone 5 two_servers 10 (11 ∷ []) refl
