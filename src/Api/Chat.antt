-- ===== src/Api/Chat.antt =====
-- crates/api/src/handlers/chat.rs: `chat_completions`, from the request to the logged call, run
-- alone. The upstream is a parameter with a state of its own. So are the generator of random
-- numbers and the tokenizer. The handler's fresh identifiers, its clock and its period are arguments. A `f32` is
-- handed on as its bits.
pub mod Request
pub mod Client
pub mod Queries
pub mod Upstream
pub mod Accounting
pub mod Handler
pub mod Course
pub mod Prices
pub mod Valid
pub mod Money
