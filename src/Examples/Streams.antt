-- ===== src/Examples/Streams.antt =====
-- Two browser tabs on the hub.
use ticket_manager_system.Common.{ℕ, ◌≡◌, refl, Bool, true, false, List, [], ◌∷◌, none, All, arith}
use ticket_manager_system.Shared.{Role}
use ticket_manager_system.Desk.{TicketEvent, ticket_created, pipeline_changed}
use ticket_manager_system.Events.{
  Scope, closed_hub, event_audience, HubCall, subscribes, unsubscribes, publishes, run_hub,
}
use ticket_manager_system.Desk.Table.{find}
use ticket_manager_system.Events.Streams.{
  nobody, listen_all, heard_by, listener_of, run_hub-listener_of,
}
use ticket_manager_system.Events.Audience.{JoinsAsAgent, run_hub-JoinsAsAgent}

abbrev committed : Scope
committed = record { in_transaction = false; in_production = false }

abbrev every_send : ℕ → Bool
every_send s = true

abbrev two_tabs : List HubCall
two_tabs =
    subscribes (record { stream = 1; role = Role.agent })
    ∷ subscribes (record { stream = 2; role = Role.admin })
    ∷ publishes committed every_send (ticket_created 7 1000)
    ∷ publishes committed every_send (pipeline_changed 7 1000)
    ∷ unsubscribes 2
    ∷ []

agent_tab : heard_by 1 (run_hub two_tabs closed_hub).deliveries ≡ ticket_created 7 1000 ∷ []
unfolding run_hub find
agent_tab = refl

admin_tab :
    heard_by 2 (run_hub two_tabs closed_hub).deliveries
    ≡ ticket_created 7 1000 ∷ pipeline_changed 7 1000 ∷ []
unfolding run_hub find
admin_tab = refl

run_hub-listener_of_example :
    listener_of 2 (run_hub two_tabs closed_hub) ≡ listen_all 2 two_tabs nobody
run_hub-listener_of_example = run_hub-listener_of 2 two_tabs

two_tabs-JoinsAsAgent : All (JoinsAsAgent 1) two_tabs
two_tabs-JoinsAsAgent = (λ e. refl, (λ e. ground (arith, e), (tt, (tt, (tt, tt)))))

run_hub-JoinsAsAgent_example :
    All
      (λ (e : TicketEvent). event_audience e ≡ none)
      (heard_by 1 (run_hub two_tabs closed_hub).deliveries)
run_hub-JoinsAsAgent_example = run_hub-JoinsAsAgent 1 two_tabs two_tabs-JoinsAsAgent
