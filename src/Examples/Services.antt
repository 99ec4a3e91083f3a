-- ===== src/Examples/Services.antt =====
-- The services that a container's ports become.
use registrator.Common.{◌≡◌, ◌≢◌, refl, Bool, some, true, false, [], apart, inr, arith}
use registrator.Bridge.Create.{new_service, linked_id, created, panicked, service_id, origin_id}
use registrator.Bridge.Create.Laws.{find_service_id-service_id, new_service_total}
use registrator.Bridge.Metadata.{split_variable}
use registrator.Bridge.Types.{Container}
use registrator.Common.Map.{get}
use registrator.Bridge.Tags.{combine_tags}
use registrator.Bridge.ServiceId.{find_service_id}
use registrator.Examples.Fixtures.{web, host, settings, web_port, web_service}

new_service_test : new_service host settings web web_port true ≡ created web_service
unfolding new_service combine_tags
new_service_test = refl

find_service_id-service_id_example :
    find_service_id (service_id web_port [] (origin_id "host1" web_port "web.1"))
    ≡ some ("host1", "web.1")
find_service_id-service_id_example =
    find_service_id-service_id "host1" "web.1" web_port []
      ((λ e. cc), (pair, (pair, (pair, (pair, (pair, tt))))))
      (refl, (refl, (refl, (refl, (refl, tt))))) ((λ e. cc), (refl, (refl, tt)))
      (unfold get in refl)
  where
    pair : ◌≡◌ {A = Bool} true true × ◌≡◌ {A = Bool} false false
    pair = (refl, refl)

-- The container shares the network of another one.
abbrev linked : Container
linked = record web { network_mode = "container:0123456789ab" }

new_service_total_example : new_service host settings linked web_port true ≢ panicked
unfolding split_variable linked_id
new_service_total_example =
    new_service_total host settings linked web_port true [] refl ((λ e. cc), ((λ e. cc), tt))
      (apart "/web.1" "" refl) (inr (omega arith))
