-- ===== src/Service/Start/Tests.antt =====
-- A pool of three threads of which the third cannot be created, and a start without memory.
use dyad.Prelude.{◌≡◌, refl, true, false, none, some, ltb}
use dyad.Core.Codes.{rc_ok}
use dyad.Service.Start.{new_held, StartCalls, create_workers, dyad_fetch_pool_start, mod_main}
use dyad.Service.Start.Workers.{Starts, dyad_fetch_pool_start_lem, mod_main_lem}

abbrev two_of_three : StartCalls
two_of_three = record {
  env_workers = some 3;
  pipe = true;
  watcher_create = true;
  calloc = true;
  pthread_create = λ i. ltb i 2;
}

abbrev no_memory : StartCalls
no_memory = record two_of_three { calloc = false }

dyad_fetch_pool_start_lem_example :
    Starts two_of_three (dyad_fetch_pool_start two_of_three new_held)
dyad_fetch_pool_start_lem_example = dyad_fetch_pool_start_lem two_of_three

mod_main_lem_example :
    ((mod_main no_memory).threads ≡ 0)
    × ((mod_main no_memory).fetch_workers ≡ false)
    × ((mod_main no_memory).completion_pipe ≡ false)
    × ((mod_main no_memory).completion_watcher ≡ true)
mod_main_lem_example = mod_main_lem no_memory

started_two : dyad_fetch_pool_start two_of_three new_held ≡ (
  record {
    completion_pipe = true;
    completion_watcher = true;
    fetch_workers = true;
    num_fetch_workers = 2;
    threads = 2;
    workers_shutdown = false;
  },
  rc_ok,
)
unfolding create_workers dyad_fetch_pool_start
started_two = refl

eight_by_default :
    (dyad_fetch_pool_start
      (record two_of_three { env_workers = none; pthread_create = λ i. true })
      new_held).0.num_fetch_workers
    ≡ 8
unfolding create_workers dyad_fetch_pool_start
eight_by_default = refl
