-- ===== src/Shell.antt =====
-- project-1-shell/src/shell-skeleton.c. `Text` has the C strings and `strtok`, `Parse` the function
-- parse_command, `Prompt` and `Alias` what stands in front of it, `Commands` what follows it.
pub mod Text
pub mod Parse
pub mod Line
pub mod Words
pub mod Replace
pub mod Repl
pub mod Endless
pub mod Alias
pub mod Expand
pub mod File
pub mod Aliases
pub mod Prompt
pub mod Chars
pub mod Editor
pub mod Host
pub mod Dump
pub mod Groups
pub mod Child
pub mod Redirect
pub mod Commands
pub mod Clock
pub mod Morning
pub mod Cases
pub mod Results
pub mod Builtins
pub mod Rows
pub mod Search
pub mod Loop
pub mod Runs
pub mod Flag
pub mod Unload
