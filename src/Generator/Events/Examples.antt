-- ===== src/Generator/Events/Examples.antt =====
-- Three events of a start and a reference time within one hour of one day.
use live_data_architecture.Base.{String, ◌≡◌, some, List, length, arith, All}
use live_data_architecture.Base.Results.{ok}
use live_data_architecture.Generator.Rng.Fixed.{fixed_rng}
use live_data_architecture.Generator.Clock.{DateTime}
use live_data_architecture.Generator.Traffic.{TrafficProfileConfig}
use live_data_architecture.Generator.Traffic.Windows.{config_of}
use live_data_architecture.Generator.FakerCatalog.{FakerDataCatalog}
use live_data_architecture.Generator.FakerCatalog.Fixed.{fixed_faker}
use live_data_architecture.Generator.FakerCatalog.Pools.{IsCatalog}
use live_data_architecture.Generator.Events.{GeneratedEvent, EventGenerator, iter_events}
use live_data_architecture.Generator.Events.Run.{IsEvent}
use live_data_architecture.Generator.Events.Ids.{DistinctIds}
use live_data_architecture.Generator.Events.Construction.{event_generator, event_generator_runs}

abbrev same_text : String → String
same_text s = s

abbrev from : DateTime
from = record { date = 7; hour = 9; minute = 30; second = 15; microsecond = 250_500 }

abbrev to : DateTime
to = record { date = 7; hour = 9; minute = 45; second = 0; microsecond = 999 }

abbrev config : TrafficProfileConfig
config = config_of 1 5 20 1 3

event_generator_runs_example :
    (catalog : FakerDataCatalog) × (g : EventGenerator fixed_rng) × (event_generator fixed_rng
        fixed_faker same_text from to tt tt tt
      ≡ ok (some (catalog, g)))
    × IsCatalog catalog
    × (es : List GeneratedEvent) × (g' : EventGenerator fixed_rng) × (iter_events fixed_rng catalog
          config from to "producer_local" 3 g
        ≡ (ok es, g'))
    × (length es ≡ 3)
    × All (IsEvent catalog from to "producer_local") es
    × DistinctIds es
event_generator_runs_example =
    event_generator_runs fixed_rng fixed_faker same_text config from to "producer_local" tt tt tt 3
      (omega arith) (omega arith) (omega arith) (omega arith) (omega arith)
