-- ===== src/Runtime/Tests.antt =====
-- A parent that built a runtime, and its child.
use aerospike_php_client.Common.{◌≡◌, [], ◌∷◌, none, arith}
use aerospike_php_client.Runtime.{built, tokio_rt, take_tokio_rt}
use aerospike_php_client.Runtime.Fork.{
  use_in, after, unset, IsOwn, IsOwnOrNone, tokio_rt-after, take_tokio_rt_once,
}

tokio_rt-after_example : IsOwn 8 (tokio_rt 8 none built (after unset (use_in 7 none built ∷ []))).1
tokio_rt-after_example = tokio_rt-after (use_in 7 none built ∷ []) 8 none built (omega arith)

take_tokio_rt_once_example :
    IsOwnOrNone 7 (take_tokio_rt 7 (after unset (use_in 7 none built ∷ []))).1
    × ((take_tokio_rt 7 (take_tokio_rt 7 (after unset (use_in 7 none built ∷ []))).0).1 ≡ none)
take_tokio_rt_once_example = take_tokio_rt_once (use_in 7 none built ∷ []) 7 (omega arith)
