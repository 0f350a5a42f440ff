-- ===== src/Worker.antt =====
-- worker/worker.go, worker/model.go and worker/file.go: the pool that executes
-- requests. Pool is about the requests and the loops that take them, Command about the execution of
-- one request.
pub mod Pool
pub mod Command
mod Examples
