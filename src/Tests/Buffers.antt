-- ===== src/Tests/Buffers.antt =====
-- The buffers of a target and of the sync manager at concrete values.
use snmpproxy.Base.{
  ℕ, zero, suc, ◌+◌, ◌*◌, ◌<◌, ◌≡◌, refl, Bool, true, false, none, some, List, [], ◌∷◌, str_eq,
  length, arith,
}
use snmpproxy.Base.Text.{lit}
use snmpproxy.Base.Options.{◌>>=◌}
use snmpproxy.Ring.{Sample, new_ring, read_last_n}
use snmpproxy.Ring.Holds.{last_n}
use snmpproxy.Ring.Refine.{Op, write_op, resize_op, run, remember, run_refines}
use snmpproxy.Target.{Target, CreateRequest, new_target}
use snmpproxy.Target.Health.{
  write_samples, valid_count, failures_since, state_for, write_sample_health,
}
use snmpproxy.Samples.{
  SampleBuffer, SampleStep, append_sample, take_buffer, insert_batch, sample_steps, add_sample,
  count, total, appended, samples_conserved, add_sample_bounded,
}

abbrev reading : ℕ → Bool → Sample
reading n valid = record {
  timestamp_ms = 1000 * n;
  counter = n;
  text = [];
  valid = valid;
  error = [];
  poll_ms = 30;
}

abbrev ring_ops : List Op
ring_ops =
    write_op (reading 1 true)
    ∷ write_op (reading 2 true)
    ∷ write_op (reading 3 false)
    ∷ write_op (reading 4 true)
    ∷ resize_op 2
    ∷ write_op (reading 5 true)
    ∷ []

abbrev request : CreateRequest
request = record {
  name = lit "router";
  description = [];
  tags = [];
  persistent = true;
  interval_ms = 0;
  buffer_size = 4;
  snmp = none;
}

abbrev outage : List Sample
outage = reading 1 true ∷ reading 2 false ∷ reading 3 false ∷ reading 4 false ∷ []

abbrev is_large : ℕ → Bool
is_large zero = false
is_large (suc n) = true

abbrev buffered : SampleBuffer ℕ
buffered = record { buffer = 5 ∷ []; batch_size = 3; in_flight = []; stored = []; refused = [] }

abbrev interleaved : List (SampleStep ℕ)
interleaved =
    append_sample 6
    ∷ take_buffer
    ∷ append_sample 0
    ∷ take_buffer
    ∷ insert_batch 1 true
    ∷ insert_batch 0 false
    ∷ []

run_refines_example :
    (run ring_ops (new_ring 3) >>= read_last_n 2) ≡ some (last_n 2 (remember ring_ops 3 []))
run_refines_example = run_refines ring_ops 3 2 (omega arith) refl

write_sample_health_example :
    (t : Target) × (write_samples outage (new_target (lit "7") request 8 100) ≡ some t)
    × (t.polls_total ≡ length outage)
    × (t.polls_ok ≡ valid_count outage)
    × (t.polls_ok + t.polls_failed ≡ t.polls_total)
    × (t.err_count ≡ failures_since 0 outage)
    × (t.state ≡ state_for (failures_since 0 outage))
write_sample_health_example =
    write_sample_health (lit "7") request 8 100 outage (omega arith) (omega arith)

samples_conserved_example :
    total is_large (sample_steps interleaved buffered)
    ≡ total is_large buffered + count is_large (appended interleaved)
samples_conserved_example = samples_conserved is_large interleaved buffered

add_sample_bounded_example :
    length (add_sample 6 true buffered).buffer < (add_sample 6 true buffered).batch_size
add_sample_bounded_example = add_sample_bounded 6 true buffered (omega arith)
