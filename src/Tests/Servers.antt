-- ===== src/Tests/Servers.antt =====
-- A run of the theorem on the server of the end-to-end tests: a run is started, polled, and polled again.
use argo_rollouts_k6_plugin.Base.{
  Text, ℤ, pos, codes, [], ◌∷◌, some, ◌≡◌, refl, arith, ◌==◌, if◌then◌else◌,
}
use argo_rollouts_k6_plugin.Base.Strings.{split}
use argo_rollouts_k6_plugin.E2e.{
  Request, test_run, handle, serve, route, run_responses, segment_after,
}
use argo_rollouts_k6_plugin.E2e.Laws.{handle-in_order}

-- A scanner that knows the one run.
abbrev scan_one : Text → ℤ
scan_one s = if s == codes "1001" then pos 1001 else pos 0

abbrev poll_request : Request
poll_request = record {
  method = codes "GET";
  path = codes "/cloud/v6/test_runs/1001";
  raw_query = [];
}

abbrev start_request : Request
start_request = record {
  method = codes "POST";
  path = codes "/cloud/v6/load_tests/100/start";
  raw_query = [];
}

handle-in_order_example :
    (handle scan_one poll_request (serve scan_one (start_request ∷ poll_request ∷ []) (λ id. 0))).0
    ≡ test_run 1001 (codes "completed") (some (codes "passed"))
unfolding route run_responses segment_after split ◌==◌
handle-in_order_example =
    handle-in_order scan_one 1001 (start_request ∷ poll_request ∷ []) poll_request refl refl refl
      (omega arith)
