-- ===== src/Server/Reached.antt =====
-- Every state that a configured server reaches from empty tables, request after request.
use wallet_service.Prelude.{ℤ, ◌≤◌, Text, Option, ◌≡◌, ap, none, []}
use wallet_service.Prog.{World, ok, run}
use wallet_service.Config.{Config, Environment, load}
use wallet_service.Config.Loaded.{IsUsable, load-IsUsable}
use wallet_service.Guarantees.{IsStanding}
use wallet_service.Guarantees.Reached.{started-IsStanding, waited-IsStanding}
use wallet_service.Handlers.{Request}
use wallet_service.Server.{Environs, new_transfer_service, new_handler}
use wallet_service.Server.Standing.{new_handler-keeps}

-- From tables without wallets and transfers, by any requests, with waiting between them, after which
-- the driver may behave in any other way.
pub data Served (x : Environs) (cfg : Config) : World → Type 0 where
  started : (w : World) → w.tx ≡ none → w.db.wallets ≡ [] → w.db.transfers ≡ [] → Served x cfg w
  served : (r : Request) (w : World) → Served x cfg w → Served x cfg (run (new_handler x cfg r) w).1
  waited :
      (w w' : World)
      → Served x cfg w
      → w'.tx ≡ none
      → w'.db ≡ w.db
      → w.clock ≤ w'.clock
      → Served x cfg w'

standing_of_Served :
    (x : Environs) (cfg : Config) (usable : IsUsable cfg) (w : World)
    → Served x cfg w
    → IsStanding (new_transfer_service x cfg) w
standing_of_Served x cfg usable _ (started w c p q) =
    started-IsStanding (new_transfer_service x cfg) w c p q
standing_of_Served x cfg usable _ (served r w h) =
    new_handler-keeps x cfg usable r w (standing_of_Served x cfg usable w h)
standing_of_Served x cfg usable _ (waited w w' h c d le) =
    waited-IsStanding (new_transfer_service x cfg) w w' (standing_of_Served x cfg usable w h) c
      (ap (λ d. d.wallets) d) (ap (λ d. d.transfers) d) le

-- With any configuration that Load accepts, every state that any sequence of HTTP requests, of
-- whatever clients and with whatever bodies, reaches from tables without wallets and transfers, under
-- every timing and every failure of the database, is standing: no transaction is open, no balance is
-- negative, every balance covers its active holds, and the balances add up to the seeds.
pub served-IsStanding :
    (env : Environment) (parse_duration : Text → Option ℤ) (x : Environs) (cfg : Config)
    → load env parse_duration ≡ ok cfg
    → (w : World) → Served x cfg w
    → IsStanding (new_transfer_service x cfg) w
served-IsStanding env parse_duration x cfg loaded w h =
    standing_of_Served x cfg (load-IsUsable env parse_duration cfg loaded) w h
