-- ===== src/ImplementationService/Processing/Reports.antt =====
-- What a run and its task hold after each exception: the codes and messages of
-- backend/app/services/implementation_service.py written out, apart from the clauses that choose them.
use issue_pilot.Prelude.{String, Option, none, some, Bool, true, false, if◌then◌else◌}
use issue_pilot.Status.{TaskStatus, RunStatus}
use issue_pilot.Result.{Error}
use issue_pilot.Db.{Task, ImplementationRun}
use issue_pilot.ImplementationService.Failures.{
  ServiceError, scope_invalid, inconsistent, unsafe_workspace_path, source_changed,
  patch_validation, llm_invalid_response, llm_unavailable, runner_unavailable,
  checkpointer_unavailable, value_error, store_error,
}

pub record Report : Type 0 where
  pub code : String
  pub message : String
  pub blocked : Bool

-- A run with a result, which no report changes.
abbrev pub has_ended : RunStatus → Bool
has_ended RunStatus.pending = false
has_ended RunStatus.generating_patch = false
has_ended RunStatus.patch_ready = false
has_ended RunStatus.test_pending = false
has_ended RunStatus.testing = false
has_ended RunStatus.tested = true
has_ended RunStatus.test_failed = true
has_ended RunStatus.failed = true
has_ended RunStatus.recovery_blocked = false

abbrev pub failed_run : Report → ImplementationRun → ImplementationRun
failed_run report run = record run {
  status = if report.blocked then RunStatus.recovery_blocked else RunStatus.failed;
  failure_code = some report.code;
  failure_message = some report.message;
}

abbrev pub failed_task : Report → Task → Task
failed_task report task = record task {
  status = if report.blocked then TaskStatus.recovery_blocked else TaskStatus.failed;
  failure_code = some report.code;
  failure_message = some report.message;
}

abbrev inconsistent_report : Report
inconsistent_report = record {
  code = "WORKSPACE_INCONSISTENT";
  message = "实现记录与真实工作区不一致";
  blocked = true;
}

abbrev failed_report : String → String → Report
failed_report code message = record { code = code; message = message; blocked = false }

abbrev output_report : Report
output_report = failed_report "PATCH_OUTPUT_INVALID" "本地模型生成的代码修改未通过安全校验"

-- None for the outages, which are raised again.
abbrev pub initial_reports : ServiceError → Option Report
initial_reports inconsistent = some inconsistent_report
initial_reports unsafe_workspace_path = some inconsistent_report
initial_reports source_changed = some inconsistent_report
initial_reports scope_invalid =
    some (failed_report "IMPLEMENTATION_SCOPE_INVALID" "批准计划的文件范围不适合安全实现")
initial_reports patch_validation = some output_report
initial_reports llm_invalid_response = some output_report
initial_reports llm_unavailable = some (failed_report "LLM_UNAVAILABLE" "本地代码生成模型暂时不可用")
initial_reports runner_unavailable =
    some (failed_report "TEST_RUNNER_UNAVAILABLE" "安全 pytest Runner 暂时不可用")
initial_reports checkpointer_unavailable = none
initial_reports (store_error Error.database_unavailable) = none
initial_reports _ = some (failed_report "IMPLEMENTATION_FAILED" "本地 Patch 生成失败")

-- A ValueError counts as an inconsistency while a test is resumed.
abbrev pub test_reports : ServiceError → Option Report
test_reports value_error = some inconsistent_report
test_reports error = initial_reports error

-- For a test that an earlier process left running, by whether its container could be removed.
abbrev pub abandoned_report : (cleaned : Bool) → Report
abandoned_report true = record {
  code = "WORKSPACE_INCONSISTENT";
  message = "测试曾开始但缺少可证明的完成证据";
  blocked = true;
}
abandoned_report false = record {
  code = "TEST_RUNNER_UNAVAILABLE";
  message = "遗留测试容器无法确认已经停止";
  blocked = true;
}
