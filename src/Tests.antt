-- ===== src/Tests.antt =====
-- Runs of the model at concrete inputs, and the theorems at inputs that meet their hypotheses.
mod Samples
mod WatchdogTests
mod WebBackgroundTests
mod RecyclerTests
mod StoreTests
mod SlaTests
mod RetentionTests
mod RestClientTests
mod SingletonTests
mod WatchTests
mod WireTests
