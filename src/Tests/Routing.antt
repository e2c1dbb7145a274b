-- ===== src/Tests/Routing.antt =====
-- The choice of a provider, and the answer to a failure, at work.
use pasarelapagos_backend.Prelude.{true, none, [], ◌∷◌}
use pasarelapagos_backend.Prelude.Int.{pos}
use pasarelapagos_backend.Errors.Filter.{FailedRequest}
use pasarelapagos_backend.Providers.Routing.{ProviderRoute, Routes, provider_ids, select_provider}
use pasarelapagos_backend.Providers.Routing.Choice.{Chosen, select_provider-Chosen}
use pasarelapagos_backend.Tests.Fixtures.{stripe}

abbrev route : ProviderRoute
route = record {
  country = "AR";
  currency = "ARS";
  method = "CARD";
  provider_id = "stripe";
  priority = pos 1;
  active = true;
}

abbrev routes : Routes
routes = record { rows = route ∷ []; cache = []; breakers = []; now = 1000 }

select_provider-Chosen_example :
    Chosen
      (stripe ∷ [])
      "AR"
      "ARS"
      "CARD"
      []
      (provider_ids "AR" "ARS" "CARD" routes).0
      (select_provider (stripe ∷ []) "AR" "ARS" "CARD" routes).0
select_provider-Chosen_example = select_provider-Chosen (stripe ∷ []) "AR" "ARS" "CARD" routes

abbrev later : Routes
later = record routes {
  rows = [];
  cache = (provider_ids "AR" "ARS" "CARD" routes).1.cache;
  now = 200000;
}

abbrev failed_request : FailedRequest
failed_request = record { url = "/api/payments"; trace_header = none; id = none }
