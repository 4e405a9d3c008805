-- ===== src/Config/Tests.antt =====
-- The defaults against those of the components (internal/config/config.go).
use media_ai.Prelude.{◌≡◌, refl}
use media_ai.Pipeline.Pool.{default_worker_pool_config}
use media_ai.Ai.Stream.{default_config as default_ai_config}
use media_ai.Coordinator.{default_config as default_coordinator_config}
use media_ai.Jitter.Buffer.{default_config as default_jitter_config}
use media_ai.Config.{default, to_worker_pool_config, to_ai_config, to_coordinator_config}

default_worker_pool : to_worker_pool_config default ≡ default_worker_pool_config
unfolding default to_worker_pool_config default_worker_pool_config
default_worker_pool = refl

default_ai :
    to_ai_config default
    ≡ record default_ai_config { first_chunk_timeout = 0; recv_idle_timeout = 0 }
unfolding default to_ai_config default_ai_config
default_ai = refl

default_coordinator :
    to_coordinator_config default
    ≡ record default_coordinator_config { callback_timeout = 1000000000 }
unfolding default to_coordinator_config default_coordinator_config default_jitter_config
default_coordinator = refl
