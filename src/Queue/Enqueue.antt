-- ===== src/Queue/Enqueue.antt =====
-- The four `enqueue_` methods of `application/use_cases/manage_queue.py`. A path argument is the
-- text that `str(path.resolve())` gives; `now` and `id` are what `datetime.now` and `uuid4` give.
mod Common
mod Methods
unfoldable pub use Common.*
unfoldable pub use Methods.*
