-- ===== src/Oms/ExecutionStatus.antt =====
-- The codes of the enumeration ExecutionStatus (proto/oms/execution_reports.proto) that the services name.
use btc_rust_history.Prelude.{ℤ, pos}

abbrev pub new : ℤ
new = pos 1

abbrev pub partially_filled : ℤ
partially_filled = pos 2

abbrev pub filled : ℤ
filled = pos 3

abbrev pub canceled : ℤ
canceled = pos 4

abbrev pub rejected : ℤ
rejected = pos 5

abbrev pub expired : ℤ
expired = pos 6
