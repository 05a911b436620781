-- ===== src/Cli/Ends/Commands.antt =====
-- `command` of cli/cli.go, which comes to an end.
