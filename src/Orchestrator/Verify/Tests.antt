-- ===== src/Orchestrator/Verify/Tests.antt =====
-- Runs of the functions on the VERIFY directive (internal/orchestrator/hitl.go).
use kyoci_agent.Prelude.{◌≡◌, refl}
use kyoci_agent.Prelude.Text.{trim_space, split_lines, join_lines, strip_prefix_fold}
use kyoci_agent.Orchestrator.Verify.{
  verify_line, extract_verify_command, strip_verify_directive, truncate_for_hitl,
}

extracts : extract_verify_command "fix it\n  Verify:  go test ./... \nplease" ≡ "go test ./..."
unfolding extract_verify_command verify_line trim_space split_lines strip_prefix_fold
extracts = refl

strips : strip_verify_directive "fix it\nVERIFY: make\n" ≡ "fix it"
unfolding strip_verify_directive verify_line trim_space split_lines join_lines strip_prefix_fold
strips = refl

truncates : truncate_for_hitl " abcdef " 3 ≡ "abc...(truncated)"
unfolding truncate_for_hitl trim_space
truncates = refl
