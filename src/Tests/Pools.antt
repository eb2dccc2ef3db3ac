-- ===== src/Tests/Pools.antt =====
-- Examples of what is proved of pools and of `spawn` (lapinbeam/supervisor.py).
use lapinbeam.Prelude.{
  some, List, [], ◌∷◌, ◌++◌, true, ◌≡◌, ◌⊎◌, ◌≤◌, length, string_eq, nat_eq, pair_eq, option_eq,
}
use lapinbeam.Messages.{Message, user, raised}
use lapinbeam.Node.State.{Result, return, raise}
use lapinbeam.Pool.{
  ℤ, pos, Item, Config, Pool, new_pool, Move, dispatches, takes, finishes, queue_of, run,
}
use lapinbeam.Pool.Order.{waiting_at, all_put, all_taken, pool_order}
use lapinbeam.Pool.Failures.{run_bounded}
use lapinbeam.Tests.Samples.{alpha, some_meta}

hash_user : Message → Result ℤ
hash_user (user n) = return (pos n)
hash_user msg = raise (raised 1)

abbrev sharded_config : Config
sharded_config = record {
  name = "pool";
  n_workers = 2;
  capacity = 3;
  hash_of = some hash_user;
  has_executor = true;
}

abbrev idle_pool : Pool
idle_pool = new_pool alpha

abbrev waiting_item : Item
waiting_item = (user 5, some_meta)

abbrev busy_moves : List Move
busy_moves =
    dispatches waiting_item
    ∷ dispatches (user 7, some_meta)
    ∷ takes 1
    ∷ dispatches (user 4, some_meta)
    ∷ finishes 1 (raise (raised 9))
    ∷ takes 1
    ∷ []

pool_order_example :
    waiting_at sharded_config idle_pool 1 ++ all_put sharded_config busy_moves 1 idle_pool
    ≡ all_taken sharded_config busy_moves 1 idle_pool
      ++ waiting_at sharded_config (run sharded_config busy_moves idle_pool) 1
pool_order_example = pool_order sharded_config busy_moves 1 idle_pool

run_bounded_example :
    (sharded_config.capacity ≡ 0)
    ⊎ (length (queue_of sharded_config (run sharded_config busy_moves (new_pool alpha)) 1).waiting
        ≤ sharded_config.capacity)
run_bounded_example = run_bounded sharded_config busy_moves alpha 1
