-- ===== src/Tasks.antt =====
-- task_store.py, task_worker.py and service.py: a task's state and files, the worker that runs it,
-- and the service that accepts tasks and serves their deliveries.
pub mod Value
pub mod Store
pub mod Memory
pub mod Fixtures
pub mod Worker
pub mod Ending
pub mod Quota
pub mod Service
pub mod Serving
pub mod Creating
pub mod Overtaking
